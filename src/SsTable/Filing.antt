-- ===== src/SsTable/Filing.antt =====
-- What `SsTableWriter::write` has written behind its loop: blocks of whole runs, laid one behind the
-- other, with the index and the filter that belong to them.
use lsm_tree_key_value_stora.Prelude.{
  ◌+◌, ◌%◌, ◌^◌, ◌<◌, ◌≡◌, refl, ap, sym, ◌∙◌, subst, subst₂, true, List, [], ◌∷◌, ◌++◌, arith,
  length, leb, inl, inr, ◌⊎◌, Bool-cases, and_true, append_assoc, append-nil, length-append,
  eq-false_of_pos, ◌&&◌,
}
use lsm_tree_key_value_stora.Order.{bytes_ord}
use lsm_tree_key_value_stora.Errors.{ok}
use lsm_tree_key_value_stora.Record.{Record, encode, encode_into}
use lsm_tree_key_value_stora.Visible.{IsRun}
use lsm_tree_key_value_stora.Bloom.{SeededHash}
use lsm_tree_key_value_stora.Files
use lsm_tree_key_value_stora.Files.{Exec, continue, ◌then_do◌, BufAppend}
use lsm_tree_key_value_stora.Files.Laws.{
  Outcome, text, Wrote-text, write-Wrote, then_do-eq_ok, then_do_assoc,
}
use lsm_tree_key_value_stora.Wal.Decode.{encodings}
use lsm_tree_key_value_stora.SsTable.{Lz4, Entry, block_size}
use lsm_tree_key_value_stora.SsTable.Writer.{
  Writer, answered, on_file, push_entry, flush_block, take_record, next_differs, step, each_record,
}
use lsm_tree_key_value_stora.SsTable.Blocks.{Part, entries}
use lsm_tree_key_value_stora.SsTable.Cuts.{
  blob, blobs, Laid, IsRun-left, Cut, run-Cut, head_key, Holding, Filed, encodings_pos,
  encodings_one, encodings-append,
}

-- What a write of the block leaves.
abbrev put_away : Lz4 → Writer → BufAppend → Writer
put_away z s w = record s {
  w = w;
  index =
      s.index
      ++ (record {
        first_key = s.block_first_key;
        block_offset = s.offset;
        comp_len = length (z.compress s.block) % 2 ^ 32;
      }
          ∷ []);
  block_first_key = [];
  offset = s.offset + length (z.compress s.block);
  block = [];
}

pub answered_lem : (p : Outcome) (s : Writer) → answered p s ≡ (p.0, record s { w = p.1 })
answered_lem (r, b) s = refl

IsRun-right : (xs ys : List Record) → IsRun (xs ++ ys) → IsRun ys
IsRun-right [] ys h = h
IsRun-right (x ∷ xs) ys h = IsRun-right xs ys h.1

some_first :
    (xs : List Record) (r : Record) → (x : Record) × (ys : List Record) × (xs ++ (r ∷ []) ≡ x ∷ ys)
some_first [] r = (r, [], refl)
some_first (x ∷ xs) r = (x, xs ++ (r ∷ []), refl)

module _ (z : Lz4) (h : SeededHash) where
  flush_block_ok :
      (s : Writer)
      → 0 < length s.block
      → (flush_block z s).0 ≡ ok tt
      → (w : BufAppend) × (text w ≡ text s.w ++ z.compress s.block)
        × ((flush_block z s).1 ≡ put_away z s w)
  unfolding flush_block on_file push_entry
  flush_block_ok s pos k =
      let comp = z.compress s.block in
      let put : Exec Writer (Unit {0}) = λ s. answered (Files.write comp s.w) s in
      let rest : Exec Writer (Unit {0}) = push_entry comp in
      let long = eq-false_of_pos (length s.block) pos in
      let (k1, e1) = then_do-eq_ok put rest s tt (rw long at k) in
      let a = answered_lem (Files.write comp s.w) s in
      let w = (Files.write comp s.w).1 in
      (
        w,
        Wrote-text s.w comp _ (write-Wrote comp s.w) (sym (ap (λ p. p.0) a) ∙ k1),
        rw long (ap (λ p. p.1) e1 ∙ ap (λ p. (rest p.1).1) a),
      )

  -- A block put away, and the rest filed behind it.
  put_away-Filed :
      (s : Writer) (x : Record) (xs rs : List Record) (w : BufAppend) (s' : Writer)
      → Holding s (x ∷ xs)
      → text w ≡ text s.w ++ z.compress s.block
      → IsRun (x ∷ xs)
      → Cut (x ∷ xs) rs
      → Filed z h (put_away z s w) [] rs s'
      → Filed z h s (x ∷ xs) rs s'
  put_away-Filed s x xs rs w s' held t run cut f =
      let comp : z.compress s.block ≡ z.compress (encodings (x ∷ xs)) = ap z.compress held.raw in
      let entry : Entry = record {
        first_key = s.block_first_key;
        block_offset = s.offset;
        comp_len = length (z.compress s.block) % 2 ^ 32;
      } in
      let part : Part = record { entry = entry; records = x ∷ xs } in
      record {
        parts = part ∷ f.parts;
        whole = ap (λ t. (x ∷ xs) ++ t) f.whole;
        laid = (
          refl,
          ap (λ b. length b % 2 ^ 32) comp,
          subst (λ b. Laid z (s.offset + length b) f.parts) comp f.laid,
        );
        grown =
            f.grown
            ∙ ap (λ b. b ++ blobs z f.parts) (t ∙ ap (λ b. text s.w ++ b) comp)
            ∙ append_assoc (text s.w) (blob z part) (blobs z f.parts);
        ended =
            omega (arith, f.ended, ap length comp, length-append (blob z part) (blobs z f.parts));
        listed = f.listed ∙ append_assoc s.index (entry ∷ []) (entries f.parts);
        ordered = (
          run,
          record { first = x; others = xs; whole = refl; indexed = sym held.first },
          subst (λ rs. Cut (x ∷ xs) rs) (sym f.whole) cut,
          f.ordered,
        );
        filter = f.filter;
      }

  -- The last block, if there is one.
  flush-Filed :
      (s : Writer) (pending : List Record)
      → Holding s pending
      → IsRun pending
      → (flush_block z s).0 ≡ ok tt
      → Filed z h s pending [] (flush_block z s).1
  flush-Filed s [] held run k =
      let e : flush_block z s ≡ (ok tt, s) = unfold flush_block encodings in rw held.raw refl in
      subst (λ p. Filed z h s [] [] p.1) (sym e)
        (record {
          parts = [];
          whole = refl;
          laid = tt;
          grown = sym (append-nil (text s.w));
          ended = omega arith;
          listed = sym (append-nil s.index);
          ordered = tt;
          filter = refl;
        })
  flush-Filed s (x ∷ xs) held run k =
      let (w, t, e) = flush_block_ok s (omega (arith, ap length held.raw, encodings_pos x xs)) k in
      subst (λ s'. Filed z h s (x ∷ xs) [] s') (sym e)
        (put_away-Filed s x xs [] w (put_away z s w) held t run (no_cut (x ∷ xs)) (record {
          parts = [];
          whole = refl;
          laid = tt;
          grown = sym (append-nil (text w));
          ended = omega arith;
          listed = sym (append-nil (put_away z s w).index);
          ordered = tt;
          filter = refl;
        }))
    where
      no_cut : (xs : List Record) → Cut xs []
      no_cut [] = tt
      no_cut (x ∷ xs) = (tt, no_cut xs)

  take_record-Holding :
      (r : Record) (s : Writer) (pending : List Record)
      → Holding s pending
      → Holding (take_record h r s) (pending ++ (r ∷ []))
  unfolding take_record encode_into
  take_record-Holding r s pending held = record {
    raw =
        ap (λ b. b ++ encode r) held.raw
        ∙ ap (λ b. encodings pending ++ b) (sym (encodings_one r))
        ∙ sym (encodings-append pending (r ∷ []));
    first = first_of pending held;
  }
    where
      first_of :
          (pending : List Record)
          → Holding s pending
          → (take_record h r s).block_first_key ≡ head_key (pending ++ (r ∷ []))
      first_of [] k = unfold take_record encodings in rw k.raw refl
      first_of (x ∷ xs) k =
          unfold take_record in
          rw (eq-false_of_pos (length s.block) (omega (arith, ap length k.raw, encodings_pos x xs)))
            k.first

  pub empty-Holding : (s : Writer) → s.block ≡ [] → s.block_first_key ≡ [] → Holding s []
  unfolding encodings
  empty-Holding s b f = record { raw = b; first = f }

  step_cases :
      (r : Record) (rs : List Record) (s : Writer)
      → ((step z h r rs s ≡ flush_block z (take_record h r s)) × (next_differs r rs ≡ true))
        ⊎ (step z h r rs s ≡ (ok tt, take_record h r s))
  unfolding step
  step_cases r rs s =
      elim (Bool-cases (leb block_size (length (take_record h r s).block) && next_differs r rs)) [
        | inl e ↦ inl (rw e refl, (and_true _ _ e).1)
        | inr e ↦ inr (rw e refl)
      ]

  abbrev pub to_end : List Record → Exec Writer (Unit {0})
  to_end rs = each_record z h rs then_do flush_block z

  take_record-Filed :
      (r : Record) (rs pending : List Record) (s s' : Writer)
      → Filed z h (take_record h r s) (pending ++ (r ∷ [])) rs s'
      → Filed z h s pending (r ∷ rs) s'
  unfolding take_record
  take_record-Filed r rs pending s s' f = record {
    parts = f.parts;
    whole = f.whole ∙ append_assoc pending (r ∷ []) rs;
    laid = f.laid;
    grown = f.grown;
    ended = f.ended;
    listed = f.listed;
    ordered = f.ordered;
    filter = f.filter;
  }

  -- The loop and the last block file every record.
  pub to_end-Filed :
      (rs pending : List Record) (s : Writer)
      → Holding s pending
      → IsRun (pending ++ rs)
      → (to_end rs s).0 ≡ ok tt
      → Filed z h s pending rs (to_end rs s).1
  unfolding each_record
  to_end-Filed [] pending s held run k = flush-Filed s pending held (rw append-nil at run) k
  to_end-Filed (r ∷ rs) pending s held run k =
      let m : Exec Writer (Unit {0}) = step z h r rs in
      let e0 = then_do_assoc m (each_record z h rs) (flush_block z) s in
      let (k1, e1) = then_do-eq_ok m (to_end rs) s tt (sym (ap (λ p. p.0) e0) ∙ k) in
      let k2 = sym (ap (λ p. p.0) e1) ∙ sym (ap (λ p. p.0) e0) ∙ k in
      let s1 = take_record h r s in
      let held1 = take_record-Holding r s pending held in
      let run1 = subst IsRun (sym (append_assoc pending (r ∷ []) rs)) run in
      subst (λ p. Filed z h s pending (r ∷ rs) p.1) (sym (e0 ∙ e1))
        (take_record-Filed r rs pending s _ (elim (step_cases r rs s) [
          | inl (es, d) ↦
              let (x, xs, ex) = some_first pending r in
              let held2 = subst (Holding s1) ex held1 in
              let (w, t, ew) =
                flush_block_ok s1 (omega (arith, ap length held2.raw, encodings_pos x xs))
                  (sym (ap (λ p. p.0) es) ∙ k1) in
              let e2 : (m s).1 ≡ put_away z s1 w = ap (λ p. p.1) es ∙ ew in
              let f =
                to_end-Filed rs [] (put_away z s1 w) (empty-Holding (put_away z s1 w) refl refl)
                  (IsRun-right (pending ++ (r ∷ [])) rs run1)
                  (ap (λ s. (to_end rs s).0) (sym e2) ∙ k2) in
              let g =
                put_away-Filed s1 x xs rs w (to_end rs (put_away z s1 w)).1 held2 t
                  (subst IsRun ex (IsRun-left (pending ++ (r ∷ [])) rs run1))
                  (subst (λ xs. Cut xs rs) ex (run-Cut pending r rs run d)) f in
              subst₂ (λ xs s'. Filed z h s1 xs rs s') (sym ex) (ap (λ s. (to_end rs s).1) (sym e2))
                g
          | inr es ↦
              let e2 : (m s).1 ≡ s1 = ap (λ p. p.1) es in
              subst (λ s'. Filed z h s1 (pending ++ (r ∷ [])) rs s')
                (ap (λ s. (to_end rs s).1) (sym e2))
                (to_end-Filed rs (pending ++ (r ∷ [])) s1 held1 run1
                  (ap (λ s. (to_end rs s).0) (sym e2) ∙ k2))
        ]))
