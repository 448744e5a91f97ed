-- ===== src/Link/Running/Runs.antt =====
-- Runs of the lines of the client (VideoServer/src/client.c).
use fagprojekt.Base.{ℕ, ◌≡◌, sym, subst, ◌∙◌, ap, List, [], ◌∷◌, ◌++◌, append_assoc}
use fagprojekt.Connection.{SockAddr}
use fagprojekt.Link.Running.{Pass, Boards, ClientLine}

-- Lines of the client, one after the other.
pub data ClientRun (server_addr : SockAddr) : Boards → Boards → Type 0 where
  none : {s : Boards} → ClientRun server_addr s s
  more :
      {s t u : Boards}
      → ClientLine server_addr s t
      → ClientRun server_addr t u
      → ClientRun server_addr s u

pub run_append :
    {server_addr : SockAddr} {s t u : Boards}
    → ClientRun server_addr s t
    → ClientRun server_addr t u
    → ClientRun server_addr s u
run_append none r = r
run_append (more l r') r = more l (run_append r' r)

pub stays :
    {server_addr : SockAddr} (s : Boards) (pass : Pass) (bytes taken : List ℕ)
    → s.pass ≡ pass
    → s.bytes ≡ bytes
    → s.taken ≡ taken
    → ClientRun server_addr s (record s { pass = pass; bytes = bytes; taken = taken })
stays {server_addr} s pass bytes taken same_pass same_bytes same_taken =
    subst (λ x. ClientRun server_addr s (record s { pass = x; bytes = bytes; taken = taken }))
      same_pass
      (subst (λ x. ClientRun server_addr s (record s { bytes = x; taken = taken })) same_bytes
        (subst (λ x. ClientRun server_addr s (record s { taken = x })) same_taken none))

-- The bytes taken in two parts.
pub taken_together :
    {server_addr : SockAddr} (s t : Boards) (a b c : List ℕ)
    → ClientRun server_addr s (record t { taken = (a ++ b) ++ c })
    → ClientRun server_addr s (record t { taken = a ++ (b ++ c) })
taken_together {server_addr} s t a b c r =
    subst (λ l. ClientRun server_addr s (record t { taken = l })) (append_assoc a b c) r

-- What a byte read leaves in the link.
pub link_after :
    (out taken : List ℕ) (x : ℕ) (l m : List ℕ)
    → out ≡ taken ++ l
    → l ≡ x ∷ m
    → (out ≡ taken ++ (x ∷ m)) × (out ≡ (taken ++ (x ∷ [])) ++ m)
link_after out taken x l m link e =
    let first = link ∙ ap (λ k. taken ++ k) e in
    (first, first ∙ sym (append_assoc taken (x ∷ []) m))
