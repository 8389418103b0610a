-- ===== src/Files/Laws.antt =====
-- What a buffered append leaves in the file, whatever fails on the way.
use lsm_tree_key_value_stora.Prelude.{
  ◌≡◌, refl, ap, ap₂, sym, ◌∙◌, true, [], ◌∷◌, ◌++◌, arith, length, take, drop, leb, ◌==◌, eq_of_==,
  suc, ◌⊎◌, inl, inr, Bool-cases, append_assoc, append-nil, take-append-drop,
}
use lsm_tree_key_value_stora.Errors.{Error, Result, ok, err}
use lsm_tree_key_value_stora.Bytes.{Bytes}
use lsm_tree_key_value_stora.Files
use lsm_tree_key_value_stora.Files.{
  Exec, continue, ◌then_do◌, SyncMode, durable, barrier, no_sync, Fate, works, fails, File, fate,
  BufAppend, flush, write, sync_file_as, sync_as, flushed, ended_append, ended_sync, synced,
}

-- The answer of a method, and the buffer that it leaves.
abbrev pub Outcome : Type 0
Outcome = Result (Unit {0}) × BufAppend

pub unit_cases : (r : Result (Unit {0})) → (r ≡ ok tt) ⊎ ((e : Error) × (r ≡ err e))
unit_cases (ok tt) = inl refl
unit_cases (err e) = inr (e, refl)

-- Of what was buffered and what was handed in, `front` is in the file; the rest is in the buffer,
-- unless an operation failed.
pub record Wrote (b : BufAppend) (bytes : Bytes) (p : Outcome) : Type 0 where
  pub front : Bytes
  pub back : Bytes
  pub grown : p.1.file.contents ≡ b.file.contents ++ front
  pub whole : b.buf ++ bytes ≡ front ++ back
  pub kept : p.0 ≡ ok tt → p.1.buf ≡ back

-- A success leaves nothing in the buffer.
abbrev pub Clean : Outcome → Type 0
Clean p = p.0 ≡ ok tt → p.1.buf ≡ []

nil_of_length : (xs : Bytes) → (length xs == 0) ≡ true → xs ≡ []
nil_of_length [] h = refl
nil_of_length (x ∷ xs) h = absurd (omega (arith, eq_of_== (suc (length xs)) 0 h))

flushed-Clean : (x : Fate) (b : BufAppend) → Clean (flushed (ended_append x b.buf b.file) b)
flushed-Clean works b h = refl
flushed-Clean (fails n) b h = cc

flushed-Wrote : (x : Fate) (b : BufAppend) → Wrote b [] (flushed (ended_append x b.buf b.file) b)
flushed-Wrote works b = record {
  front = b.buf;
  back = [];
  grown = refl;
  whole = refl;
  kept = λ _. refl;
}
flushed-Wrote (fails n) b = record {
  front = take n b.buf;
  back = drop n b.buf;
  grown = refl;
  whole = append-nil b.buf ∙ sym (take-append-drop n b.buf);
  kept = λ h. cc;
}

pub untouched-Wrote : (b : BufAppend) → Wrote b [] (ok tt, b)
untouched-Wrote b = record {
  front = [];
  back = b.buf;
  grown = sym (append-nil b.file.contents);
  whole = append-nil b.buf;
  kept = λ _. refl;
}

pub flush-Clean : (b : BufAppend) → Clean (flush b)
unfolding flush
flush-Clean b = elim (Bool-cases (length b.buf == 0)) [
  | inl e ↦ rw e (λ h. nil_of_length b.buf e)
  | inr e ↦ rw e (flushed-Clean (fate b.file.fates) b)
]

pub flush-Wrote : (b : BufAppend) → Wrote b [] (flush b)
unfolding flush
flush-Wrote b = elim (Bool-cases (length b.buf == 0)) [
  | inl e ↦ rw e (untouched-Wrote b)
  | inr e ↦ rw e (flushed-Wrote (fate b.file.fates) b)
]

-- A write that fills the buffer hands it on; any other only buffers.
Wrote-buffered :
    (bytes : Bytes) (b : BufAppend) (p : Outcome)
    → Wrote (record b { buf = b.buf ++ bytes }) [] p
    → Wrote b bytes p
Wrote-buffered bytes b p w = record {
  front = w.front;
  back = w.back;
  grown = w.grown;
  whole = sym (append-nil (b.buf ++ bytes)) ∙ w.whole;
  kept = w.kept;
}

pub write-Wrote : (bytes : Bytes) (b : BufAppend) → Wrote b bytes (write bytes b)
unfolding write
write-Wrote bytes b =
    let b' : BufAppend = record b { buf = b.buf ++ bytes } in
    elim (Bool-cases (leb b.cap (length b'.buf))) [
      | inl e ↦ rw e (Wrote-buffered bytes b _ (flush-Wrote b'))
      | inr e ↦ rw e (Wrote-buffered bytes b _ (untouched-Wrote b'))
    ]

ended-contents :
    (x : Fate) (kept : Bytes) (f : File) → (ended_sync x kept f).1.contents ≡ f.contents
ended-contents works kept f = refl
ended-contents (fails n) kept f = refl

sync-contents : (mode : SyncMode) (f : File) → (sync_as mode f).1.contents ≡ f.contents
unfolding sync_as
sync-contents no_sync f = refl
sync-contents barrier f = ended-contents (fate f.fates) f.kept f
sync-contents durable f = ended-contents (fate f.fates) f.contents f

ended-kept :
    (x : Fate) (f : File)
    → (ended_sync x f.contents f).0 ≡ ok tt
    → (ended_sync x f.contents f).1.kept ≡ (ended_sync x f.contents f).1.contents
ended-kept works f h = refl
ended-kept (fails n) f h = absurd (cc h)

-- A durable sync that succeeds keeps all that the file holds.
pub sync_file_as-kept :
    (b : BufAppend)
    → (sync_file_as durable b).0 ≡ ok tt
    → (sync_file_as durable b).1.file.kept ≡ (sync_file_as durable b).1.file.contents
unfolding sync_file_as sync_as
sync_file_as-kept b h = ended-kept (fate b.file.fates) b.file h

synced-Wrote :
    (x : Fate) (kept : Bytes) (b : BufAppend) → Wrote b [] (synced (ended_sync x kept b.file) b)
synced-Wrote works kept b = record {
  front = [];
  back = b.buf;
  grown = sym (append-nil b.file.contents);
  whole = append-nil b.buf;
  kept = λ _. refl;
}
synced-Wrote (fails n) kept b = record {
  front = [];
  back = b.buf;
  grown = sym (append-nil b.file.contents);
  whole = append-nil b.buf;
  kept = λ h. cc;
}

synced-Clean :
    (x : Fate) (kept : Bytes) (b : BufAppend)
    → b.buf ≡ []
    → Clean (synced (ended_sync x kept b.file) b)
synced-Clean works kept b e h = e
synced-Clean (fails n) kept b e h = cc

pub sync_file_as-Wrote : (mode : SyncMode) (b : BufAppend) → Wrote b [] (sync_file_as mode b)
unfolding sync_file_as
sync_file_as-Wrote mode b = record {
  front = [];
  back = b.buf;
  grown = sync-contents mode b.file ∙ sym (append-nil b.file.contents);
  whole = append-nil b.buf;
  kept = λ _. refl;
}

pub sync_file_as-Clean :
    (mode : SyncMode) (b : BufAppend) → b.buf ≡ [] → Clean (sync_file_as mode b)
unfolding sync_file_as
sync_file_as-Clean mode b e h = e

module _ (m n : Exec BufAppend (Unit {0})) (b : BufAppend) where
  pub then_do-Wrote :
      (x y : Bytes)
      → Wrote b x (m b)
      → ((b' : BufAppend) → Wrote b' y (n b'))
      → Wrote b (x ++ y) ((m then_do n) b)
  then_do-Wrote x y w k = elim (unit_cases (m b).0) [
    | inl e ↦ rw e (
        let v = k (m b).1 in
        record {
          front = w.front ++ v.front;
          back = v.back;
          grown =
              v.grown
              ∙ ap (λ z. z ++ v.front) w.grown
              ∙ append_assoc b.file.contents w.front v.front;
          whole =
              sym (append_assoc b.buf x y)
              ∙ ap (λ z. z ++ y) w.whole
              ∙ append_assoc w.front w.back y
              ∙ ap (λ z. w.front ++ z) (ap (λ z. z ++ y) (sym (w.kept e)) ∙ v.whole)
              ∙ sym (append_assoc w.front v.front v.back);
          kept = v.kept;
        })
    | inr (c, e) ↦ rw e (record {
      front = w.front;
      back = w.back ++ y;
      grown = w.grown;
      whole =
          sym (append_assoc b.buf x y) ∙ ap (λ z. z ++ y) w.whole ∙ append_assoc w.front w.back y;
      kept = λ h. cc;
    })
  ]

  pub then_do-Clean :
      Clean (m b) → ((b' : BufAppend) → b'.buf ≡ [] → Clean (n b')) → Clean ((m then_do n) b)
  then_do-Clean c k = elim (unit_cases (m b).0) [
    | inl e ↦ rw e (k (m b).1 (c e))
    | inr (d, e) ↦ rw e (λ h. cc)
  ]

  pub then_do-Clean_last : ((b' : BufAppend) → Clean (n b')) → Clean ((m then_do n) b)
  then_do-Clean_last k = elim (unit_cases (m b).0) [
    | inl e ↦ rw e (k (m b).1)
    | inr (d, e) ↦ rw e (λ h. cc)
  ]

pub sync-Wrote : (b : BufAppend) → Wrote b [] (Files.sync b)
unfolding Files.sync sync_as
sync-Wrote b =
    then_do-Wrote flush (λ b. synced (sync_as durable b.file) b) b [] [] (flush-Wrote b)
      (λ b. synced-Wrote (fate b.file.fates) b.file.contents b)

pub sync-Clean : (b : BufAppend) → Clean (Files.sync b)
unfolding Files.sync sync_as
sync-Clean b =
    then_do-Clean flush (λ b. synced (sync_as durable b.file) b) b (flush-Clean b)
      (λ b. synced-Clean (fate b.file.fates) b.file.contents b)

-- What the file and the buffer hold together.
abbrev pub text : BufAppend → Bytes
text b = b.file.contents ++ b.buf

-- A success keeps every byte.
pub Wrote-text :
    (b : BufAppend) (bytes : Bytes) (p : Outcome)
    → Wrote b bytes p
    → p.0 ≡ ok tt
    → text p.1 ≡ text b ++ bytes
Wrote-text b bytes p w h =
    ap₂ ◌++◌ w.grown (w.kept h)
    ∙ append_assoc b.file.contents w.front w.back
    ∙ ap (λ x. b.file.contents ++ x) (sym w.whole)
    ∙ sym (append_assoc b.file.contents b.buf bytes)

pub then_do_assoc :
    {S B : Type 0} (m n : Exec S (Unit {0})) (o : Exec S B) (s : S)
    → ((m then_do n) then_do o) s ≡ (m then_do (n then_do o)) s
then_do_assoc {S = S} m n o s = assoc_at (m s)
  where
    assoc_at :
        (p : Result (Unit {0}) × S)
        → continue
            (continue {B = Unit {0}} p.0 (λ _. n) p.1).0
            (λ _. o)
            (continue {B = Unit {0}} p.0 (λ _. n) p.1).1
          ≡ continue p.0 (λ _. n then_do o) p.1
    assoc_at (ok u, t) = refl
    assoc_at (err e, t) = refl

-- A chain that succeeds went through its first part.
pub then_do-eq_ok :
    {S B : Type 0} (m : Exec S (Unit {0})) (n : Exec S B) (s : S) (b : B)
    → ((m then_do n) s).0 ≡ ok b
    → ((m s).0 ≡ ok tt) × ((m then_do n) s ≡ n (m s).1)
then_do-eq_ok {B = B} m n s b h = elim (unit_cases (m s).0) [
  | inl e ↦ (e, ap (λ r. continue {B = B} r (λ _. n) (m s).1) e)
  | inr (x, e) ↦ absurd (cc h)
]
