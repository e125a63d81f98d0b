-- ===== src/Limits.antt =====
-- The limits on a request body: crates/ngxora-runtime/src/upstreams/runtime/limits.rs. A chunk is
-- its length.
use ngxora.Base.{
  ℕ, ◌+◌, ◌≤◌, ◌≡◌, ◌∙◌, arith, Bool, List, [], ◌∷◌, Option, none, some, ltb, if◌then◌else◌,
  Bool-cases, inl, inr,
}
use ngxora.Machine.{u64_max, checked_add}

-- `content_length_limit_exceeded`; the header value is the number that `to_str` and `parse::<u64>`
-- read from it.
unfoldable pub content_length_limit_exceeded : Option (Option ℕ) → Option ℕ → Option Bool
content_length_limit_exceeded (some (some size)) (some limit) = some (ltb limit size)
content_length_limit_exceeded _ _ = none

-- `update_received_body_bytes`: the new count, or none for the error 413.
unfoldable pub update_received_body_bytes : ℕ → Option ℕ → Option ℕ → Option ℕ
update_received_body_bytes received body none = some received
update_received_body_bytes received none (some limit) = some received
update_received_body_bytes received (some chunk_len) (some limit) =
    if ltb u64_max chunk_len then none else elim (checked_add received chunk_len) [
      | none ↦ none
      | some next ↦ if ltb limit next then none else some next
    ]

-- The filter runs on each chunk of the body in turn and stops at the first error.
unfoldable pub receive_body : ℕ → List (Option ℕ) → Option ℕ → Option ℕ
receive_body received [] limit = some received
receive_body received (body ∷ rest) limit = elim (update_received_body_bytes received body limit) [
  | none ↦ none
  | some next ↦ receive_body next rest limit
]

unfoldable pub body_size : List (Option ℕ) → ℕ
body_size [] = 0
body_size (none ∷ rest) = body_size rest
body_size (some n ∷ rest) = n + body_size rest

pub update_received_body_bytes_lem :
    (received chunk_len limit : ℕ)
    → limit ≤ u64_max
    → update_received_body_bytes received (some chunk_len) (some limit)
      ≡ (if ltb limit (received + chunk_len) then none else some (received + chunk_len))
unfolding update_received_body_bytes
update_received_body_bytes_lem received n limit h = ground arith

-- For a limit of at most `u64::MAX` and a count within it, a whole body is accepted if and only if
-- the count with the sizes of all chunks is within the limit, and that is then the new count;
-- otherwise the result is the error 413.
pub receive_body_lem :
    (received limit : ℕ) (chunks : List (Option ℕ))
    → limit ≤ u64_max
    → received ≤ limit
    → receive_body received chunks (some limit) ≡ (
        if ltb limit (received + body_size chunks)
        then none
        else some (received + body_size chunks))
unfolding receive_body body_size update_received_body_bytes
receive_body_lem r limit [] h k = ground arith
receive_body_lem r limit (none ∷ rest) h k = receive_body_lem r limit rest h k
receive_body_lem r limit (some n ∷ rest) h k = elim (Bool-cases (ltb limit (r + n))) [
  | inl q ↦
      let e : update_received_body_bytes r (some n) (some limit) ≡ none =
        update_received_body_bytes_lem r n limit h ∙ rw q in
      rw (e, receive_body) (ground arith)
  | inr q ↦
      let e : update_received_body_bytes r (some n) (some limit) ≡ some (r + n) =
        update_received_body_bytes_lem r n limit h ∙ rw q in
      rw (e, receive_body) (receive_body_lem (r + n) limit rest h (ground arith) ∙ ground arith)
]
