-- ===== src/Logger/Growth.antt =====
-- The log through the calls of `log_exec` by one process after another.
use cc_base.Base.{
  true, Option, some, List, [], ◌∷◌, ◌++◌, ◌≡◌, sym, subst, ◌∙◌, ◌⊎◌, inl, inr, arith, Option-cases,
  append-nil,
}
use cc_base.Cstring.{Bytes, codes}
use cc_base.Paths.{make_path_abs}
use cc_base.Host.{Host, Environ}
use cc_base.Tool.{Action}
use cc_base.Collect.{collect_actions_by_prog_name}
use cc_base.Logger.Stream.{write_actions}
use cc_base.Logger.Log.{Entry, render, new_entries}
use cc_base.Logger.Append.{write_actions-render, write_actions-empty}
use cc_base.Logger.Session.{Outcome, Logged, log_program_args, log_exec}
use cc_base.Logger.Locking.{Way, quits, logs, log_exec-Way, too_few}

-- The file holds these entries: as the text of an array, or by being empty if there are none.
abbrev pub IsLogOf : List Entry → Bytes → Type 0
IsLogOf es log = (log ≡ render es) ⊎ ((es ≡ []) × (log ≡ []))

-- The file holds the entries, and more behind them.
abbrev pub Grown : List Entry → Bytes → Type 0
Grown es log = (new : List Entry) × IsLogOf (es ++ new) log

IsLogOf-Grown : (es : List Entry) (log : Bytes) → IsLogOf es log → Grown es log
IsLogOf-Grown es log h = ([], rw (append-nil es) h)

write_actions-Grown :
    (host : Host) (wd : Bytes) (actions : List Action) (es : List Entry) (log : Bytes)
    → IsLogOf es log
    → Grown es (write_actions host wd actions (record { bytes = log; pos = 0 })).bytes
unfolding write_actions
write_actions-Grown host wd [] es log h = IsLogOf-Grown es log h
write_actions-Grown host wd (a ∷ actions) es log (inl e) =
    (new_entries host wd (a ∷ actions), inl (rw e (write_actions-render host wd es a actions)))
write_actions-Grown host wd (a ∷ actions) es log (inr e) =
    (new_entries host wd (a ∷ actions), inl (rw (e.0, e.1) (write_actions-empty host wd a actions)))

pub log_program_args-Grown :
    (host : Host) (env : Environ) (log prog : Bytes) (argv : List Bytes) (es : List Entry)
    (w : Bytes × Environ)
    → IsLogOf es log
    → log_program_args host env log prog argv ≡ some w
    → Grown es w.0
unfolding log_program_args
log_program_args-Grown host env log prog argv es w h e =
    elim (Option-cases (make_path_abs host.fs (codes ".") true)) [
      | inl f ↦
          let q : log ≡ w.0 = ground (arith, e, f) in subst (Grown es) q (IsLogOf-Grown es log h)
      | inr (wd, f) ↦ elim (Option-cases (collect_actions_by_prog_name host env prog argv []).0) [
        | inl g ↦ absurd (ground (arith, e, f, g))
        | inr (actions, g) ↦
            let after = write_actions host wd actions (record { bytes = log; pos = 0 }) in
            let q : after.bytes ≡ w.0 = ground (arith, e, f, g) in
            subst (Grown es) q (write_actions-Grown host wd actions es log h)
      ]
    ]

Way-Grown :
    (host : Host) (env : Environ) (log prog : Bytes) (argv : List Bytes) (r : Option Logged)
    (es : List Entry) (l : Logged)
    → Way host env log prog argv r
    → IsLogOf es log
    → r ≡ some l
    → Grown es l.log
Way-Grown host env log prog argv r es l (quits status events bad b e) h k =
    subst (Grown es) (ground (arith, sym e ∙ k)) (IsLogOf-Grown es log h)
Way-Grown host env log prog argv r es l (logs events b e) h k =
    elim (Option-cases (log_program_args host env log prog argv)) [
      | inl f ↦ absurd (cc (f, e, k))
      | inr (w, f) ↦
          subst (Grown es) (ground (arith, e, k, f))
            (log_program_args-Grown host env log prog argv es w h f)
    ]

-- A call of `log_exec` that returns, whatever it logs and whichever step fails, on a file that is
-- empty or the text of an array of entries, leaves such a file: the entries that were in it stay,
-- in their order, and new ones are only put behind them.
pub log_exec-Grown :
    (host : Host) (os : Outcome) (env : Environ) (log : Bytes) (args : List Bytes) (es : List Entry)
    (l : Logged)
    → IsLogOf es log
    → log_exec host os env log args ≡ some l
    → Grown es l.log
unfolding log_exec
log_exec-Grown host os env log [] es l h k =
    Way-Grown host env log [] [] _ es l (too_few host env log) h k
log_exec-Grown host os env log (prog ∷ []) es l h k =
    Way-Grown host env log [] [] _ es l (too_few host env log) h k
log_exec-Grown host os env log (prog ∷ argv0 ∷ argv) es l h k =
    Way-Grown host env log prog argv _ es l (log_exec-Way host os env log prog argv0 argv) h k
