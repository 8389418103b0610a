-- ===== src/Record/Prefix.antt =====
-- What decoding makes of a buffer that ends too early: it answers `record truncated`, or what it
-- answers on the longer buffer.
use lsm_tree_key_value_stora.Prelude.{
  ℕ, ◌+◌, ◌≤◌, ◌<◌, ◌≡◌, refl, ap, sym, append-nil, zero-add, ◌∙◌, ◌⊎◌, inl, inr, true, [], ◌∷◌,
  ◌++◌, arith, length, length-append, Bool-cases, leb→le, le→leb, and_true, Option, ltb, leb, ◌&&◌,
}
use lsm_tree_key_value_stora.Errors.{Error, Result, ok, err, corrupt, record_truncated, ◌>>=◌}
use lsm_tree_key_value_stora.Bytes.{Bytes, slice, slice-append}
use lsm_tree_key_value_stora.Record.{
  Record, Reader, encode, encoded_len, usize_mod, bytes, u8, u32, u64, value_of_kind, decode,
  decode_at,
}
use lsm_tree_key_value_stora.Record.RoundTrip.{Fits, decode_at-encode, length-encode}

abbrev cursor : Bytes → ℕ → Reader
cursor buf pos = record { buf = buf; pos = pos }

-- `m` on the buffer `buf` and `n` on the same buffer with `more` behind it.
data Extends {A : Type 0} (buf more : Bytes) (m n : Result (A × Reader)) : Type 0 where
  cut : m ≡ err (corrupt record_truncated) → Extends buf more m n
  same :
      (a : A) (p : ℕ)
      → p ≤ length buf
      → m ≡ ok (a, cursor buf p)
      → n ≡ ok (a, cursor (buf ++ more) p)
      → Extends buf more m n
  fails : (e : Error) → m ≡ err e → n ≡ err e → Extends buf more m n

module _ (buf more : Bytes) where
  Extends-bind :
      {A B : Type 0} (m n : Result (A × Reader)) (f : A × Reader → Result (B × Reader))
      → Extends buf more m n
      → ((a : A) (p : ℕ)
          → p ≤ length buf
          → Extends buf more (f (a, cursor buf p)) (f (a, cursor (buf ++ more) p)))
      → Extends buf more (m >>= f) (n >>= f)
  Extends-bind m n f (cut e) k = cut (rw e)
  Extends-bind m n f (same a p i e d) k = rw (e, d) (k a p i)
  Extends-bind m n f (fails c e d) k = fails c (rw e) (rw d)

  read_more :
      (p n : ℕ)
      → (ltb (p + n) usize_mod && leb (p + n) (length buf)) ≡ true
      → Extends buf more (bytes (cursor buf p) n) (bytes (cursor (buf ++ more) p) n)
  unfolding bytes
  read_more p n h =
      let (small, inside) = and_true (ltb (p + n) usize_mod) _ h in
      let le : p + n ≤ length buf = leb→le _ _ inside in
      let le' : p + n ≤ length (buf ++ more) = omega (arith, le, length-append buf more) in
      same (slice buf p (p + n)) (p + n) le (rw (small, inside))
        (rw (small, le→leb _ _ le', slice-append buf more p (p + n) (omega arith) le))

  bytes-Extends :
      (p n : ℕ) → Extends buf more (bytes (cursor buf p) n) (bytes (cursor (buf ++ more) p) n)
  unfolding bytes
  bytes-Extends p n = elim (Bool-cases (ltb (p + n) usize_mod && leb (p + n) (length buf))) [
    | inl h ↦ read_more p n h
    | inr h ↦ cut (rw h)
  ]

  u8-Extends : (p : ℕ) → Extends buf more (u8 (cursor buf p)) (u8 (cursor (buf ++ more) p))
  unfolding u8
  u8-Extends p = Extends-bind _ _ _ (bytes-Extends p 1) (λ a q i. same _ q i refl refl)

  u32-Extends : (p : ℕ) → Extends buf more (u32 (cursor buf p)) (u32 (cursor (buf ++ more) p))
  unfolding u32
  u32-Extends p = Extends-bind _ _ _ (bytes-Extends p 4) (λ a q i. same _ q i refl refl)

  u64-Extends : (p : ℕ) → Extends buf more (u64 (cursor buf p)) (u64 (cursor (buf ++ more) p))
  unfolding u64
  u64-Extends p = Extends-bind _ _ _ (bytes-Extends p 8) (λ a q i. same _ q i refl refl)

  finish-Extends :
      (v : Result (Option Bytes)) (g : Option Bytes → Record) (p : ℕ)
      → p ≤ length buf
      → Extends buf more
          (v >>= λ w. ok (g w, cursor buf p))
          (v >>= λ w. ok (g w, cursor (buf ++ more) p))
  finish-Extends (ok w) g p i = same _ p i refl refl
  finish-Extends (err e) g p i = fails e refl refl

  decode-Extends :
      (p : ℕ) → Extends buf more (decode (cursor buf p)) (decode (cursor (buf ++ more) p))
  unfolding decode
  decode-Extends p = Extends-bind _ _ _ (u64-Extends p) λ s p1 i1.
      Extends-bind _ _ _ (u8-Extends p1) λ k p2 i2. Extends-bind _ _ _ (u32-Extends p2) λ kl p3 i3.
        Extends-bind _ _ _ (bytes-Extends p3 kl) λ key p4 i4.
          Extends-bind _ _ _ (u32-Extends p4) λ vl p5 i5.
            Extends-bind _ _ _ (bytes-Extends p5 vl) λ val p6 i6.
              finish-Extends (value_of_kind k val) (λ w. record { key = key; value = w; seq = s })
                p6 i6

  abbrev Outcome : ℕ → Type 0
  Outcome pos =
      (decode_at buf pos ≡ err (corrupt record_truncated))
      ⊎ ((decode_at (buf ++ more) pos ≡ decode_at buf pos)
          × ((r : Record) (p : ℕ) → decode_at buf pos ≡ ok (r, p) → p ≤ length buf))

  Outcome-Extends :
      (pos : ℕ)
      → Extends buf more (decode (cursor buf pos)) (decode (cursor (buf ++ more) pos))
      → Outcome pos
  unfolding decode_at
  Outcome-Extends pos (cut e) = inl (rw e)
  Outcome-Extends pos (same a p i e d) = inr (rw (e, d), λ r q h. ground (arith, e))
  Outcome-Extends pos (fails c e d) = inr (rw (e, d), λ r p q. ground (arith, e))

  -- Decoding at a position either runs out of bytes, or stops inside the buffer and answers what
  -- it answers when more bytes follow.
  pub decode_at_cases : (pos : ℕ) → Outcome pos
  decode_at_cases pos = Outcome-Extends pos (decode-Extends pos)

-- Every proper prefix of an encoding is answered by `record truncated`.
pub decode_at_truncated :
    (r : Record) (front back : Bytes) (b : ℕ)
    → Fits r
    → encoded_len r < usize_mod
    → encode r ≡ front ++ (b ∷ back)
    → decode_at front 0 ≡ err (corrupt record_truncated)
decode_at_truncated r front back b f small e = elim (decode_at_cases front (b ∷ back) 0) [
  | inl short ↦ short
  | inr (agree, inside) ↦ absurd (
      omega (
        arith,
        inside r (encoded_len r) (sym agree ∙ ap (λ x. decode_at x 0) (sym e) ∙ whole),
        length-append front (b ∷ back),
        length-encode r,
        ap length e,
      ))
]
  where
    whole : decode_at (encode r) 0 ≡ ok (r, encoded_len r)
    whole =
        simp (append-nil, zero-add) at
          (decode_at-encode [] [] r f (rw append-nil (rw length-encode small)))
