-- ===== src/Tests/Buffers.antt =====
-- A buffer of five bytes whose contents go round the end of the array.
use fagprojekt.Base.{ℕ, ◌+◌, ◌≡◌, refl, true, false, [], ◌∷◌, ◌↔◌, length, arith, ok}
use fagprojekt.Buffer.{
  CircularBuf, send_data_buffer, read_data_buffer, get_space, fill_level, buffer_is_empty,
}
use fagprojekt.Buffer.Invariant.{IsValid, contents}
use fagprojekt.Buffer.Contents.{read_data_buffer_lem, fill_level_lem}
use fagprojekt.Buffer.Send.{
  send_data_buffer-IsValid, send_data_buffer-append, send_data_buffer-zero,
}

abbrev wrapped : CircularBuf
wrapped = record { buffer = 8 ∷ 0 ∷ 0 ∷ 6 ∷ 7 ∷ []; head = 1; tail = 3; max = 5; full = false }

abbrev fresh : CircularBuf
fresh = record { buffer = 1 ∷ 2 ∷ 3 ∷ []; head = 2; tail = 2; max = 3; full = false }

-- The data goes round the end of the array, in two parts.
send_splits :
    send_data_buffer (4 ∷ 5 ∷ []) 2 fresh
    ≡ ok (record { buffer = 5 ∷ 2 ∷ 4 ∷ []; head = 1; tail = 2; max = 3; full = false })
unfolding send_data_buffer
send_splits = refl

wrapped-IsValid : IsValid wrapped
wrapped-IsValid = record {
  nonempty = omega arith;
  small = omega arith;
  block = refl;
  head_in = omega arith;
  tail_in = omega arith;
  full_at = λ e. cc;
}

fresh-IsValid : IsValid fresh
fresh-IsValid = record {
  nonempty = omega arith;
  small = omega arith;
  block = refl;
  head_in = omega arith;
  tail_in = omega arith;
  full_at = λ e. refl;
}

contents-wrapped : contents wrapped ≡ 6 ∷ 7 ∷ 8 ∷ []
contents-wrapped = refl

fill_level_lem_example :
    (fill_level wrapped ≡ 3) × ((buffer_is_empty wrapped ≡ true) ↔ (contents wrapped ≡ []))
fill_level_lem_example = fill_level_lem wrapped-IsValid

read_data_buffer_lem_example :
    (x : ℕ) × (b : CircularBuf) × (read_data_buffer wrapped ≡ ok (x, b))
    × IsValid b
    × (b.max ≡ 5)
    × (6 ∷ 7 ∷ 8 ∷ [] ≡ x ∷ contents b)
read_data_buffer_lem_example = read_data_buffer_lem wrapped-IsValid (omega arith)

send_data_buffer-IsValid_example :
    (b : CircularBuf) × (send_data_buffer (1 ∷ 2 ∷ 3 ∷ 4 ∷ 5 ∷ 6 ∷ 7 ∷ 8 ∷ []) 8 fresh ≡ ok b)
    × IsValid b
    × (b.max ≡ 3)
send_data_buffer-IsValid_example =
    send_data_buffer-IsValid (1 ∷ 2 ∷ 3 ∷ 4 ∷ 5 ∷ 6 ∷ 7 ∷ 8 ∷ []) 8 fresh-IsValid (omega arith)
      (omega arith)

send_data_buffer-append_example :
    (b : CircularBuf) × (send_data_buffer (4 ∷ 5 ∷ []) 2 fresh ≡ ok b)
    × IsValid b
    × (contents b ≡ 4 ∷ 5 ∷ [])
    × (get_space b + 2 ≡ get_space fresh)
unfolding get_space
send_data_buffer-append_example =
    send_data_buffer-append (4 ∷ 5 ∷ []) 2 fresh-IsValid (omega arith) (omega arith) (omega arith)

send_data_buffer-zero_example :
    (b : CircularBuf) × (send_data_buffer [] 0 fresh ≡ ok b)
    × (get_space b ≡ 0)
    × (length (contents b) ≡ 3)
send_data_buffer-zero_example = send_data_buffer-zero [] fresh-IsValid refl
