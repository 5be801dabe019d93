-- ===== src/RunState/Store/Atomic.antt =====
-- A save happens whole or not at all.
use jacu_harness.Base.{
  ◌≡◌, ◌≢◌, ◌⊎◌, inl, inr, refl, sym, ap, ◌∙◌, subst, String, true, Option, none, some, ok, arith,
  eq_iff, eq_refl, Bool-cases, Option-cases, Result-cases, ◌==◌, String-comparable,
}
use jacu_harness.Base.Assoc.{find, put, find-put}
use jacu_harness.Base.Int.{eq_of_parts}
use jacu_harness.RunState.{
  Run, RunError, disk, current_schema_version, normalize_schema_version, transition,
}
use jacu_harness.RunState.Ids.{valid_run_id}
use jacu_harness.RunState.Lifecycle.{Moves, stays, transition-Moves}
use jacu_harness.RunState.Store.{
  Codec, Rereads, holds, RunDir, Faults, load, read_run, decoded, write_file, save_with_rename,
  admit, save_locked,
}

abbrev pub current : {D : Type 0} → Run D → Run D
current raw = record raw { schema_version = current_schema_version }

pub normalize-current :
    {D : Type 0} (raw run : Run D) → normalize_schema_version raw ≡ ok run → run ≡ current raw
unfolding normalize_schema_version
normalize-current raw run h =
    ground (arith, eq_iff raw.schema_version "", eq_iff raw.schema_version "1")

normalize_again :
    {D : Type 0} (raw : Run D) → normalize_schema_version (current raw) ≡ ok (current raw)
unfolding normalize_schema_version
normalize_again raw = refl

abbrev pub stored : {Text : Type 0} → RunDir Text → String → Text → RunDir Text × Option RunError
stored d id text = (record d { files = put d.files id (holds text) }, none)

write_file_cases :
    {Text : Type 0} (d : RunDir Text) (id : String) (text : Text) (f : Faults)
    → (((write_file d id text f).1 ≡ some disk) × ((write_file d id text f).0.files ≡ d.files))
      ⊎ (write_file d id text f ≡ stored d id text)
unfolding write_file
write_file_cases d id text f = ground arith

admit-Moves :
    {D : Type 0} (existing run : Run D)
    → admit (ok existing) run ≡ none
    → (existing.created_at ≡ run.created_at) × Moves existing.status run.status
unfolding admit
admit-Moves existing run h = elim (Result-cases (transition existing.status run.status)) [
  | inl (t, e) ↦ (
    eq_of_parts existing.created_at run.created_at (ground arith),
    transition-Moves existing.status run.status t e,
  )
  | inr (e, q) ↦ absurd (ground arith)
]

module _ {D Text : Type 0} (codec : Codec D Text) where
  pub load-id :
      (d : RunDir Text) (id : String) (run : Run D) → load codec d id ≡ ok run → run.run_id ≡ id
  unfolding load read_run normalize_schema_version
  load-id d id run h = elim (Result-cases (read_run codec (find d.files id))) [
    | inl (r, e) ↦ ground (arith, eq_iff r.run_id id)
    | inr (x, e) ↦ absurd (ground arith)
  ]

  -- What was written of a run.
  abbrev pub Written : RunDir Text → Run D → Faults → Type 0
  Written d run f =
      (text : Text) × (codec.marshal run ≡ some text)
      × (save_with_rename codec d run f ≡ stored d run.run_id text)

  write_cases :
      (d : RunDir Text) (run : Run D) (f : Faults)
      → (((save_with_rename codec d run f).1 ≡ some disk)
          × ((save_with_rename codec d run f).0.files ≡ d.files))
        ⊎ Written d run f
  unfolding save_with_rename
  write_cases d run f = elim (Bool-cases f.mkdir) [
    | inl t ↦ inl (ground arith, ground arith)
    | inr t ↦ elim (Option-cases (codec.marshal run)) [
      | inl n ↦ inl (ground arith, ground arith)
      | inr (text, q) ↦ elim (write_file_cases d run.run_id text f) [
        | inl (w, same) ↦ inl (ground arith, ground arith)
        | inr w ↦ inr (text, q, ground arith)
      ]
    ]
  ]

  -- What a save leaves: the files as they were, or the run stored where it was admitted.
  pub save_cases :
      (d : RunDir Text) (raw : Run D) (f : Faults)
      → (((save_locked codec d raw f).1 ≢ none) × ((save_locked codec d raw f).0.files ≡ d.files))
        ⊎ ((admit (load codec d raw.run_id) (current raw) ≡ none)
            × ((text : Text) × (codec.marshal (current raw) ≡ some text)
                × (save_locked codec d raw f ≡ stored d raw.run_id text)))
  unfolding save_locked
  save_cases d raw f = elim (Result-cases (normalize_schema_version raw)) [
    | inr (e, p) ↦ inl (rw (p, save_locked) (ground arith), rw (p, save_locked) refl)
    | inl (run, p) ↦
        let p' : normalize_schema_version raw ≡ ok (current raw) =
          p ∙ ap ok (normalize-current raw run p) in
        elim (Option-cases (admit (load codec d raw.run_id) (current raw))) [
          | inr (e, q) ↦ inl (ground arith, ground arith)
          | inl q ↦ elim (write_cases d (current raw) f) [
            | inl (w, same) ↦ inl (ground arith, ground arith)
            | inr (text, m, w) ↦ inr (q, (text, m, ground arith))
          ]
        ]
  ]

  -- A save that reports an error has changed no run file, whichever step failed.
  pub save_error_untouched :
      (d : RunDir Text) (raw : Run D) (f : Faults) (e : RunError)
      → (save_locked codec d raw f).1 ≡ some e
      → (save_locked codec d raw f).0.files ≡ d.files
  save_error_untouched d raw f e h = elim (save_cases d raw f) [
    | inl (_, same) ↦ same
    | inr (_, q) ↦ absurd (ground arith)
  ]

  admit_valid :
      (d : RunDir Text) (id : String) (run : Run D)
      → admit (load codec d id) run ≡ none
      → valid_run_id id ≡ true
  unfolding admit load
  admit_valid d id run h = ground arith

  load_put :
      (d : RunDir Text) (id : String) (text : Text) (other : String)
      → id ≢ other
      → load codec (stored d id text).0 other ≡ load codec d other
  unfolding load
  load_put d id text other h =
      ground (arith, find-put d.files id other (holds text), eq_iff id other)

  load_same :
      (d e : RunDir Text) (id : String) → e.files ≡ d.files → load codec e id ≡ load codec d id
  unfolding load
  load_same d e id h = rw h

  module _ (r : Rereads codec) where
    -- A run under the current version, as its file is read.
    abbrev pub loaded_as : Run D → Run D
    loaded_as raw = record (current raw) { details = r.reread (current raw) }

    load_put_self :
        (d : RunDir Text) (raw : Run D) (text : Text)
        → valid_run_id raw.run_id ≡ true
        → codec.marshal (current raw) ≡ some text
        → load codec (stored d raw.run_id text).0 raw.run_id ≡ ok (loaded_as raw)
    unfolding load read_run decoded
    load_put_self d raw text v m = ground (
      arith,
      find-put d.files raw.run_id raw.run_id (holds text),
      eq_refl raw.run_id,
      r.unmarshal_marshal (current raw) text m,
      normalize_again (loaded_as raw),
    )

  -- One save, successful or not, of any run: a run that was there keeps its creation time, and its
  -- status has moved as the lifecycle allows.
  pub save_locked-Moves :
      (r : Rereads codec) (d : RunDir Text) (raw : Run D) (f : Faults) (id : String) (old : Run D)
      → load codec d id ≡ ok old
      → (new : Run D) × (load codec (save_locked codec d raw f).0 id ≡ ok new)
        × (new.created_at ≡ old.created_at)
        × Moves old.status new.status
  save_locked-Moves r d raw f id old h = elim (save_cases d raw f) [
    | inl (_, same) ↦ (old, load_same d (save_locked codec d raw f).0 id same ∙ h, refl, stays refl)
    | inr (admitted, (text, m, q)) ↦ elim (Bool-cases (raw.run_id == id)) [
      | inr other ↦ (
        old,
        rw q (load_put d raw.run_id text id (λ e. ground (arith, eq_iff raw.run_id id)) ∙ h),
        refl,
        stays refl,
      )
      | inl same ↦
          let e : raw.run_id ≡ id = (eq_iff raw.run_id id).0 same in
          let there : load codec d raw.run_id ≡ ok old =
            subst (λ x. load codec d x ≡ ok old) (sym e) h in
          let admitted' : admit (ok old) (current raw) ≡ none = rw there at admitted in
          let (created, moves) = admit-Moves old (current raw) admitted' in
          let v = admit_valid d raw.run_id (current raw) admitted in
          (
            loaded_as r raw,
            rw q (
                subst (λ x. load codec (stored d raw.run_id text).0 x ≡ ok (loaded_as r raw)) e
                  (load_put_self r d raw text v m)),
            sym created,
            moves,
          )
    ]
  ]
