-- ===== src/Flitrpc/Frame/Shrinks.antt =====
-- How much ReadFrame takes from the reader: server/flitrpc/flitrpc.go.
use flit_el.Prelude.{
  ℕ, ◌+◌, ◌≤◌, ◌≡◌, Bool, true, false, Option, inl, inr, arith, Bytes, length, length-drop, leb,
  ltb, is_empty, drop, take, Bool-cases, if◌then◌else◌,
}
use mathlib.Core.Path.{subst}
use flit_el.Prelude.Results.{Result, ok, err, wrap, ◌>>=◌}
use flit_el.Flitrpc.Frame.{
  Frame, read_full, read_payload, read_frame, unmarshal, header, reading_meta, reading_payload, eof,
  unexpected_eof, get_uint32,
}

-- A read that has `n` bytes leaves `k` fewer, or is an error.
abbrev Takes : {E A : Type 0} → ℕ → ℕ → Result E (A × Bytes) → Type 0
Takes n k (ok (a, r)) = length r + k ≤ n
Takes n k (err e) = Unit

error : (k n : ℕ) (b : Bool) → Takes {A = Bytes} n k (if b then err eof else err unexpected_eof)
error k n true = tt
error k n false = tt

read_full-Takes : (k : ℕ) (r : Bytes) → Takes (length r) k (read_full k r)
unfolding read_full
read_full-Takes k r = elim (Bool-cases (leb k (length r))) [
  | inl e ↦ rw e (ground (arith, length-drop k r))
  | inr e ↦ rw e (error k (length r) (is_empty r))
]

wrap-Takes :
    {E F A : Type 0} (n k : ℕ) (f : E → F) (m : Result E (A × Bytes))
    → Takes n k m
    → Takes n k (wrap f m)
wrap-Takes n k f (ok (a, r)) h = h
wrap-Takes n k f (err e) h = tt

bind-Takes :
    {E A B : Type 0} (n k j : ℕ) (m : Result E (A × Bytes)) (g : A × Bytes → Result E (B × Bytes))
    → Takes n k m
    → ((a : A) (r : Bytes) → length r + k ≤ n → Takes n j (g (a, r)))
    → Takes n j (m >>= g)
bind-Takes n k j (ok (a, r)) g h kg = kg a r h
bind-Takes n k j (err e) g h kg = tt

pure-Takes :
    {E A B : Type 0} (n k : ℕ) (m : Result E A) (g : A → Result E (B × Bytes))
    → ((a : A) → Takes n k (g a))
    → Takes n k (m >>= g)
pure-Takes n k (ok a) g h = h a
pure-Takes n k (err e) g h = tt

weaken :
    {E A : Type 0} (n n' k j : ℕ) (m : Result E (A × Bytes))
    → n + j ≤ n' + k
    → Takes n k m
    → Takes n' j m
weaken n n' k j (ok (a, r)) l h = omega arith
weaken n n' k j (err e) l h = tt

module _ {M : Type 0} (decode : Bytes → Option M) where
  read_payload-Takes : (n : ℕ) (r : Bytes) → Takes (length r) 0 (read_payload decode n r)
  unfolding read_payload
  read_payload-Takes n r = elim (Bool-cases (ltb 0 n)) [
    | inl e ↦ rw e (
        wrap-Takes (length r) 0 reading_payload (read_full n r)
          (weaken (length r) (length r) n 0 (read_full n r) (omega arith) (read_full-Takes n r)))
    | inr e ↦ rw e (omega arith)
  ]

  read_frame-Takes : (r : Bytes) → Takes (length r) 8 (read_frame decode r)
  unfolding read_frame
  read_frame-Takes r =
      bind-Takes (length r) 8 8 (wrap header (read_full 8 r)) _
        (wrap-Takes _ _ header (read_full 8 r) (read_full-Takes 8 r))
        λ hdr r1 h1.
          let k = get_uint32 (take 4 hdr) in
          bind-Takes (length r) 8 8 (wrap reading_meta (read_full k r1)) _
            (wrap-Takes _ _ reading_meta (read_full k r1) (
              weaken (length r1) (length r) k 8 (read_full k r1) (omega arith)
                (read_full-Takes k r1)))
            λ buf r2 h2. pure-Takes (length r) 8 (unmarshal decode buf) _ λ m.
              let j = get_uint32 (drop 4 hdr) in
              bind-Takes (length r) 8 8 (read_payload decode j r2) _
                (weaken (length r2) (length r) 0 8 (read_payload decode j r2) (omega arith)
                  (read_payload-Takes j r2))
                λ p r3 h3. h3

  -- Every frame that is read takes eight bytes or more from the reader.
  pub length-read_frame :
      (r s : Bytes) (f : Frame M) → read_frame decode r ≡ ok (f, s) → length s + 8 ≤ length r
  length-read_frame r s f e = subst (Takes (length r) 8) e (read_frame-Takes r)
