-- ===== src/Flitrpc/Sink.antt =====
-- The `io.Writer` under a `flitrpc.Writer`: every call appends all its bytes, or appends a part of
-- them and returns an error.
use flit_el.Prelude.{
  ℕ, ◌≡◌, refl, sym, ap, ◌∙◌, ◌⊎◌, inl, inr, Option, none, some, List, [], ◌∷◌, ◌++◌, Bytes, take,
  drop, take-append-drop,
}
use mathlib.Core.List.{append-nil, append_assoc}

-- `outcomes` lists how the next calls end: `none` for success, `some n` for an error after `n`
-- bytes. Calls beyond the list succeed.
pub record Sink : Type 0 where
  pub written : Bytes
  pub outcomes : List (Option ℕ)

pub data IoResult : Type 0 where
  done failed : IoResult

abbrev pub Action : Type 0
Action = Sink → IoResult × Sink

write_with : List (Option ℕ) → Bytes → Bytes → IoResult × Sink
write_with [] p w = (done, record { written = w ++ p; outcomes = [] })
write_with (none ∷ rest) p w = (done, record { written = w ++ p; outcomes = rest })
write_with (some n ∷ rest) p w = (failed, record { written = w ++ take n p; outcomes = rest })

-- w.Write(p)
unfoldable pub write : Bytes → Action
unfolding write_with
write p s = write_with s.outcomes p s.written

unfoldable pub skip : Action
skip s = (done, s)

abbrev continue : Action → IoResult × Sink → IoResult × Sink
continue k (done, s) = k s
continue k (failed, s) = (failed, s)

infixl 5 ◌>>◌
-- `if err := m; err != nil { return err }; k`
unfoldable pub ◌>>◌ : Action → Action → Action
◌>>◌ m k s = continue k (m s)

-- After an action the sink has all of `bs` and no error is returned, or it has a part of `bs` from
-- the front and an error is returned.
abbrev pub Emitted : Bytes → Bytes → IoResult × Sink → Type 0
Emitted w bs r =
    ((r.0 ≡ done) × (r.1.written ≡ w ++ bs))
    ⊎ ((pre : Bytes) × (post : Bytes) × (bs ≡ pre ++ post)
        × (r.0 ≡ failed)
        × (r.1.written ≡ w ++ pre))

-- Both, on every sink; and a sink that reports no error has all of `bs` and stays so.
pub record Emits (bs : Bytes) (m : Action) : Type 0 where
  pub at : (s : Sink) → Emitted s.written bs (m s)
  pub complete :
      (w : Bytes)
      → m (record { written = w; outcomes = [] })
        ≡ (done, record { written = w ++ bs; outcomes = [] })

write_with-Emitted : (os : List (Option ℕ)) (p w : Bytes) → Emitted w p (write_with os p w)
unfolding write_with
write_with-Emitted [] p w = inl (refl, refl)
write_with-Emitted (none ∷ rest) p w = inl (refl, refl)
write_with-Emitted (some n ∷ rest) p w =
    inr (take n p, drop n p, sym (take-append-drop n p), refl, refl)

pub Emits-write : (p : Bytes) → Emits p (write p)
unfolding write write_with
Emits-write p = record { at = λ s. write_with-Emitted s.outcomes p s.written; complete = λ w. refl }

pub Emits-skip : Emits [] skip
unfolding skip
Emits-skip = record {
  at = λ s. inl (refl, sym (append-nil s.written));
  complete = λ w. rw append-nil;
}

continue-Emitted :
    (w xs bs : Bytes) (k : Action) (r : IoResult × Sink)
    → Emits bs k
    → Emitted w xs r
    → Emitted w (xs ++ bs) (continue k r)
continue-Emitted w xs bs k (done, s) ek (inl (e, h)) = elim (ek.at s) [
  | inl (f, g) ↦ inl (f, g ∙ ap (λ (x : Bytes). x ++ bs) h ∙ append_assoc w xs bs)
  | inr (pre, post, split, f, g) ↦ inr (
    xs ++ pre,
    post,
    ap (◌++◌ xs) split ∙ sym (append_assoc xs pre post),
    f,
    g ∙ ap (λ (x : Bytes). x ++ pre) h ∙ append_assoc w xs pre,
  )
]
continue-Emitted w xs bs k (done, s) ek (inr (pre, post, split, e, h)) = cc
continue-Emitted w xs bs k (failed, s) ek (inl (e, h)) = cc
continue-Emitted w xs bs k (failed, s) ek (inr (pre, post, split, e, h)) =
    inr (pre, post ++ bs, ap (λ (x : Bytes). x ++ bs) split ∙ append_assoc pre post bs, refl, h)

pub Emits-then :
    (xs bs : Bytes) (m k : Action) → Emits xs m → Emits bs k → Emits (xs ++ bs) (m >> k)
unfolding ◌>>◌
Emits-then xs bs m k em ek = record {
  at = λ s. continue-Emitted s.written xs bs k (m s) ek (em.at s);
  complete = λ w. rw (em.complete w, ek.complete (w ++ xs), append_assoc);
}
