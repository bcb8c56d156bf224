-- ===== src/Logger/Append.antt =====
-- `write_actions` on the text of a list of entries.
use Prim.Native.Nat.add
use native.Mathlib.Nat.{add-zero}
use native.Mathlib.Numerals.{towards_suc}
use cc_base.Base.{
  ℕ, zero, suc, ◌+◌, ◌≤◌, List, [], ◌∷◌, ◌++◌, ◌≡◌, refl, sym, ap, ◌∙◌, length, drop, arith,
  append_assoc, append-nil, length-append, pair_eq, inl, inr, Option-cases,
}
use cc_base.Cstring.{Bytes, codes}
use cc_base.Host.{Host}
use cc_base.Tool.{Action}
use cc_base.Logger.Command.{create_json_command_string}
use cc_base.Logger.Stream.{
  fprintf, entry_text, separator, write_sources, write_action, write_each, open_array,
  write_actions,
}
use cc_base.Logger.Log.{
  Entry, more, items, render, source_entries, action_entries, new_entries, joined, cursor,
  fprintf-cursor, drop-nil, fprintf-fprintf, fprintf-nil, joined_of_pos, joined-nil, joined-append,
  later,
}

length-source_entries :
    (wd command : Bytes) (files : List Bytes)
    → length (source_entries wd command files) ≡ length files
length-source_entries wd command [] = refl
length-source_entries wd command (f ∷ files) = ap suc (length-source_entries wd command files)

write_sources-joined :
    (wd command : Bytes) (sources : List Bytes) (a r t : Bytes) (n : ℕ)
    → write_sources wd command sources (fprintf (cursor a r) t, n) ≡ (
      fprintf (cursor a r) (t ++ joined n (source_entries wd command sources)),
      n + length sources,
    )
unfolding write_sources
write_sources-joined wd command [] a r t n = rw (joined-nil n, append-nil t, add-zero n)
write_sources-joined wd command (f ∷ sources) a r t zero =
    rw
      (
        fprintf-fprintf a r t (entry_text wd command f),
        write_sources-joined wd command sources a r (t ++ entry_text wd command f) 1,
      )
      (pair_eq
        (unfold items in ap (fprintf (cursor a r)) (append_assoc t (entry_text wd command f) _))
        (omega arith))
write_sources-joined wd command (f ∷ sources) a r t (suc n) =
    rw
      (
        later n,
        fprintf-fprintf a r t separator,
        fprintf-fprintf a r (t ++ separator) (entry_text wd command f),
        write_sources-joined wd command sources a r ((t ++ separator) ++ entry_text wd command f)
            (suc n + 1),
        joined_of_pos (suc n + 1) (source_entries wd command sources) (omega arith),
      )
      (pair_eq
        (unfold more in
          ap (fprintf (cursor a r)) (
            append_assoc (t ++ separator) (entry_text wd command f) _ ∙ append_assoc t separator _))
        (omega arith))

write_action-joined :
    (host : Host) (wd : Bytes) (action : Action) (a r t : Bytes) (n : ℕ)
    → write_action host wd action (fprintf (cursor a r) t, n) ≡ (
      fprintf (cursor a r) (t ++ joined n (action_entries host wd action)),
      n + length (action_entries host wd action),
    )
unfolding write_action action_entries
write_action-joined host wd action a r t n =
    elim (Option-cases (create_json_command_string host action.arguments)) [
      | inl e ↦ rw (write_action, action_entries, e) (rw (joined-nil n, append-nil t, add-zero n))
      | inr (command, e) ↦
          rw (write_action, action_entries, e)
            (rw (write_sources-joined wd command action.sources a r t n)
              (pair_eq refl (ap (◌+◌ n) (sym (length-source_entries wd command action.sources)))))
    ]

write_each-joined :
    (host : Host) (wd : Bytes) (actions : List Action) (a r t : Bytes) (n : ℕ)
    → write_each host wd actions (fprintf (cursor a r) t, n) ≡ (
      fprintf (cursor a r) (t ++ joined n (new_entries host wd actions)),
      n + length (new_entries host wd actions),
    )
unfolding write_each new_entries
write_each-joined host wd [] a r t n = rw (joined-nil n, append-nil t, add-zero n)
write_each-joined host wd (action ∷ actions) a r t n =
    let es = action_entries host wd action in
    let fs = new_entries host wd actions in
    rw
      (
        write_action-joined host wd action a r t n,
        write_each-joined host wd actions a r (t ++ joined n es) (n + length es),
      )
      (pair_eq
        (ap (fprintf (cursor a r))
          (append_assoc t (joined n es) _ ∙ ap (◌++◌ t) (sym (joined-append n es fs))))
        (omega (arith, length-append es fs)))

drop_rest : (n c : ℕ) → drop {A = ℕ} (n + 1) (c ∷ []) ≡ []
drop_rest n c = simp towards_suc (drop-nil n)

-- The bytes of the file when the array is closed again.
closed_array :
    (a t : Bytes) (c : ℕ)
    → (fprintf (fprintf (cursor a (c ∷ [])) t) (codes "]")).bytes ≡ a ++ (t ++ codes "]")
closed_array a t c =
    rw (fprintf-fprintf a (c ∷ []) t (codes "]"), fprintf-cursor a (c ∷ []) (t ++ codes "]"))
      (rw (length-append t (codes "]"), drop_rest (length t) c)
        (append-nil (a ++ (t ++ codes "]"))))

-- The count with which the entries behind `es` are written.
abbrev count_after : List Entry → ℕ
count_after [] = 0
count_after (e ∷ es) = 1

joined-count_after : (es fs : List Entry) → joined (length es) fs ≡ joined (count_after es) fs
joined-count_after [] fs = refl
joined-count_after (e ∷ es) fs = refl

abbrev opened : List Entry → Bytes
opened es = codes "[\n" ++ items es

open_array_of :
    (body : Bytes)
    → 4 ≤ length body
    → open_array (record { bytes = codes "[\n" ++ (body ++ codes "]"); pos = 0 })
      ≡ (cursor (codes "[\n" ++ body) (codes "]"), 1)
unfolding open_array
open_array_of body h = ground (arith, length-append body (codes "]"))

length-items : (e : Entry) (es : List Entry) → 4 ≤ length (items (e ∷ es))
unfolding items entry_text
length-items e es = omega arith

open_array-render :
    (es : List Entry)
    → open_array (record { bytes = render es; pos = 0 })
      ≡ (cursor (opened es) (codes "]"), count_after es)
unfolding render
open_array-render [] = unfold items open_array in refl
open_array-render (e ∷ es) = open_array_of (items (e ∷ es)) (length-items e es)

-- With one action or more, entries are appended to a log of entries: the log is the same text that writing all of them at
-- once would give, whatever was in it before.
pub write_actions-render :
    (host : Host) (wd : Bytes) (es : List Entry) (action : Action) (actions : List Action)
    → (write_actions host wd (action ∷ actions) (record { bytes = render es; pos = 0 })).bytes
      ≡ render (es ++ new_entries host wd (action ∷ actions))
unfolding write_actions render
write_actions-render host wd es action actions =
    let fs = new_entries host wd (action ∷ actions) in
    let tail : joined (0 + length es) fs ≡ joined (count_after es) fs =
      rw (add.zero (length es)) (joined-count_after es fs) in
    rw (open_array-render es, ← fprintf-nil (opened es) (codes "]"))
      (rw (write_each-joined host wd (action ∷ actions) (opened es) (codes "]") [] (count_after es))
        (closed_array (opened es) (joined (count_after es) fs) b']'
          ∙ ap (λ l. codes "[\n" ++ l)
              (sym (append_assoc (items es) _ (codes "]"))
                ∙ ap (λ l. l ++ codes "]")
                    (sym (joined-append 0 es fs ∙ ap (◌++◌ (items es)) tail)))))

open_array-empty :
    open_array (record { bytes = []; pos = 0 }) ≡ (fprintf (cursor [] []) (codes "[\n"), 0)
unfolding open_array
open_array-empty = refl

-- An empty file becomes, with one action or more, the log of the new entries.
pub write_actions-empty :
    (host : Host) (wd : Bytes) (action : Action) (actions : List Action)
    → (write_actions host wd (action ∷ actions) (record { bytes = []; pos = 0 })).bytes
      ≡ render (new_entries host wd (action ∷ actions))
unfolding write_actions render
write_actions-empty host wd action actions =
    let text = codes "[\n" ++ items (new_entries host wd (action ∷ actions)) in
    rw open_array-empty (
      rw
        (
          write_each-joined host wd (action ∷ actions) [] [] (codes "[\n") 0,
          fprintf-fprintf [] [] text (codes "]"),
          fprintf-cursor [] [] (text ++ codes "]"),
        )
        (rw (drop-nil (length (text ++ codes "]"))) (append-nil (text ++ codes "]"))))
