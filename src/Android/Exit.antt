-- ===== src/Android/Exit.antt =====
-- What `serverReadFunc` does with a message of the app.
use fagprojekt.Base.{
  ℕ, zero, suc, ◌+◌, ◌-◌, ◌≤◌, ◌<◌, ◌≡◌, refl, ◌∙◌, ap, Bool, true, false, ◌&&◌, List, [], ◌∷◌,
  ◌++◌, ◌==◌, if◌then◌else◌, length, ltb, arith, ok, fault, Option, some, Bool-cases, inl, inr,
}
use fagprojekt.Process.{◌>>=◌, lift}
use fagprojekt.Android.{
  AndroidServer, max, zeros, exit_message, str_equal, print_string, handle_message,
  server_read_func, restart,
}

-- The string that an array holds: the bytes before the first zero.
abbrev pub text : List ℕ → List ℕ
text [] = []
text (x ∷ l) = if x == 0 then [] else x ∷ text l

abbrev pub same_bytes : List ℕ → List ℕ → Bool
same_bytes [] [] = true
same_bytes [] (y ∷ b) = false
same_bytes (x ∷ a) [] = false
same_bytes (x ∷ a) (y ∷ b) = (x == y) && same_bytes a b

print_string_lem :
    (l : List ℕ) (k : ℕ)
    → print_string (l ++ zeros k) ≡ (if ltb (length (text l)) (length l + k) then ok tt else fault)
unfolding print_string zeros
print_string_lem [] zero = ground arith
print_string_lem [] (suc k) = ground arith
print_string_lem (x ∷ l) k = elim (Bool-cases (x == 0)) [
  | inl e ↦ ground (arith, e)
  | inr e ↦ ground (arith, e, print_string_lem l k)
]

abbrev NoZero : List ℕ → Type 0
NoZero [] = Unit
NoZero (x ∷ l) = (0 < x) × NoZero l

str_equal_lem :
    (e l : List ℕ) (k : ℕ)
    → NoZero e
    → length e < length l + k
    → str_equal (e ++ (0 ∷ [])) (l ++ zeros k) ≡ ok (same_bytes e (text l))
unfolding str_equal zeros
str_equal_lem e [] zero z h = absurd (omega arith)
str_equal_lem [] [] (suc k) z h = refl
str_equal_lem (x ∷ e) [] (suc k) (z, zs) h = ground arith
str_equal_lem [] (y ∷ l) k z h = ground arith
str_equal_lem (x ∷ e) (y ∷ l) k (z, zs) h = ground (arith, str_equal_lem e l k zs)

same_bytes-length : (a b : List ℕ) → same_bytes a b ≡ true → length a ≡ length b
same_bytes-length [] [] e = refl
same_bytes-length [] (y ∷ b) e = cc
same_bytes-length (x ∷ a) [] e = cc
same_bytes-length (x ∷ a) (y ∷ b) e = ground (arith, same_bytes-length a b)

handle_exit :
    (buff : List ℕ) (s : AndroidServer)
    → str_equal (exit_message ++ (0 ∷ [])) buff ≡ ok true
    → print_string buff ≡ ok tt
    → handle_message buff s ≡ restart s
unfolding handle_message
handle_exit buff s test printed = rw (test, printed, ◌>>=◌, lift) refl

handle_other :
    (fits : Bool) (buff : List ℕ) (s : AndroidServer)
    → str_equal (exit_message ++ (0 ∷ [])) buff ≡ ok false
    → print_string buff ≡ (if fits then ok tt else fault)
    → handle_message buff s ≡ (if fits then ok (tt, s) else fault)
unfolding handle_message
handle_other true buff s test printed = rw (test, printed, ◌>>=◌, lift) refl
handle_other false buff s test printed = rw (test, printed, ◌>>=◌, lift) refl

handle_message_lem :
    (l : List ℕ) (k : ℕ) (s : AndroidServer)
    → length l + k ≡ max
    → handle_message (l ++ zeros k) s ≡ (
        if same_bytes exit_message (text l)
        then restart s
        else if ltb (length (text l)) max
        then ok (tt, s)
        else fault)
handle_message_lem l k s size =
    let test : str_equal (exit_message ++ (0 ∷ [])) (l ++ zeros k)
        ≡ ok (same_bytes exit_message (text l)) =
      str_equal_lem exit_message l k (omega arith, (omega arith, (omega arith, (omega arith, tt))))
        (omega arith) in
    let printed : print_string (l ++ zeros k)
        ≡ (if ltb (length (text l)) max then ok tt else fault) =
      print_string_lem l k ∙ ap (λ n. if ltb (length (text l)) n then ok tt else fault) size in
    elim (Bool-cases (same_bytes exit_message (text l))) [
      | inl e ↦
          let short : ltb (length (text l)) max ≡ true =
            ground (arith, same_bytes-length exit_message (text l) e) in
          rw e (handle_exit (l ++ zeros k) s (test ∙ ap ok e) (printed ∙ rw short refl))
      | inr e ↦
          rw e (handle_other (ltb (length (text l)) max) (l ++ zeros k) s (test ∙ ap ok e) printed)
    ]

-- The array that holds a message of at most 64 bytes with EXIT as its string.
pub exit_read :
    (l : List ℕ)
    → length l ≤ max
    → same_bytes exit_message (text l) ≡ true
    → (str_equal (exit_message ++ (0 ∷ [])) (l ++ zeros (max - length l)) ≡ ok true)
      × (print_string (l ++ zeros (max - length l)) ≡ ok tt)
exit_read l size e =
    let short : ltb (length (text l)) (length l + (max - length l)) ≡ true =
      ground (arith, same_bytes-length exit_message (text l) e) in
    (
      str_equal_lem exit_message l (max - length l)
            (omega arith, (omega arith, (omega arith, (omega arith, tt)))) (omega arith)
          ∙ ap ok e,
      print_string_lem l (max - length l) ∙ rw short refl,
    )

-- A received message of at most 64 bytes restarts the server if its string is EXIT; else it is
-- printed, which reads behind the array's end if there is no zero among 64 bytes.
pub server_read_func_lem :
    (x : ℕ) (bytes : List ℕ) (later : List (Option (List ℕ))) (s : AndroidServer)
    → length (x ∷ bytes) ≤ max
    → s.reads ≡ some (x ∷ bytes) ∷ later
    → server_read_func s ≡ (
        if same_bytes exit_message (text (x ∷ bytes))
        then restart (record s { reads = later })
        else if ltb (length (text (x ∷ bytes))) max
        then ok (tt, record s { reads = later })
        else fault)
unfolding server_read_func
server_read_func_lem x bytes later s size e = rw e (
    handle_message_lem (x ∷ bytes) (max - length (x ∷ bytes)) (record s { reads = later })
      (omega arith))
