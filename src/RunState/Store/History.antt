-- ===== src/RunState/Store/History.antt =====
-- What a history of saves can make of a run.
use jacu_harness.Base.{◌≡◌, ◌∙◌, refl, String, ok}
use jacu_harness.RunState.{Run}
use jacu_harness.RunState.Lifecycle.{Moves}
use jacu_harness.RunState.Store.{Codec, Rereads, RunDir, Faults, load, save_locked}
use jacu_harness.RunState.Store.Atomic.{save_locked-Moves}

-- Saves of any runs, in any number, some of which may fail at any step.
pub data Saves {D Text : Type 0} (codec : Codec D Text) (d : RunDir Text)
    : RunDir Text → Type 0 where
  none_yet : Saves codec d d
  then_save :
      {e : RunDir Text} (raw : Run D) (f : Faults)
      → Saves codec d e
      → Saves codec d (save_locked codec e raw f).0

-- Any number of moves of a status.
pub data MovesOn (from : String) : String → Type 0 where
  here : MovesOn from from
  on : {s t : String} → MovesOn from s → Moves s t → MovesOn from t

-- Where the encoding keeps the id, the status and the creation time of a run that it writes: whatever
-- is saved after a run was stored, and whatever fails, the run still loads, it keeps its
-- creation time, and its status has come from the old one by moves of the lifecycle.
pub history_kept :
    {D Text : Type 0} (codec : Codec D Text) (r : Rereads codec) (d e : RunDir Text) (id : String)
    (old : Run D)
    → Saves codec d e
    → load codec d id ≡ ok old
    → (new : Run D) × (load codec e id ≡ ok new)
      × (new.created_at ≡ old.created_at)
      × MovesOn old.status new.status
history_kept codec r d e id old none_yet h = (old, h, refl, here)
history_kept codec r d e id old (then_save {e = m} raw f s) h =
    let (mid, loaded, created, moved) = history_kept codec r d m id old s h in
    let (new, loaded', created', moves) = save_locked-Moves codec r m raw f id mid loaded in
    (new, loaded', created' ∙ created, on moved moves)
