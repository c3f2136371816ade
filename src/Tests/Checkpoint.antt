-- ===== src/Tests/Checkpoint.antt =====
-- checkpoint/checkpoint.go at concrete inputs.
use windns_logtail.Base.{
  Text, lit, text_eq, text_eq_iff, text_le, pos, ℕ, true, false, none, some, [], ◌∷◌, ◌≡◌, ◌≢◌, ◌⊎◌,
  ◌↔◌, refl, arith, nano_per_second,
}
use windns_logtail.Base.Dict.{Dict, lookup, insert, keys}
use windns_logtail.Base.Sort.{sort_texts}
use mathlib.Core.List.{Perm}
use mathlib.Core.List.Perm
use windns_logtail.Checkpoint.Abstract.{StateMap, of, document, recover, file, document_of_map}
use windns_logtail.Checkpoint.State.{EventLogState, created, not_exist, Os}
use windns_logtail.Checkpoint.Point.{
  Checkpoint, World, create_temp, snapshot, flush, persist, new_checkpoint, fresh_point,
  start_point,
}
use windns_logtail.Checkpoint.Worker.{
  from_done, from_save, from_timer, store, take_save, work, shutdown, works, Reach, here, next,
}
use windns_logtail.Checkpoint.Snapshot.{IsKeyed}
use windns_logtail.Checkpoint.Flush.{Holds, Succeeds, flush_atomic}
use windns_logtail.Checkpoint.Recovery.{
  Inv, Saved, insert-IsKeyed, nil-IsKeyed, restart_finds, Reach-Inv,
}
use windns_logtail.Checkpoint.Shutdown.{shutdown_saves}
use windns_logtail.Checkpoint.Refinement.{Trail, calls, view, Reach-Trail}
use windns_logtail.Tests.Codec.{codec, codec-ReadsBack, codec-AlwaysWrites}

abbrev state : Text → ℕ → EventLogState
state name t = record {
  name = name;
  record_number = 7;
  timestamp = pos t;
  md5 = lit "d4";
  bookmark = [];
}

abbrev two_states : Dict EventLogState
two_states = (lit "dns", state (lit "dns") 5) ∷ (lit "audit", state (lit "audit") 9) ∷ []

two_states-insert :
    two_states
    ≡ insert (lit "audit") (state (lit "audit") 9) (insert (lit "dns") (state (lit "dns") 5) [])
unfolding insert text_eq
two_states-insert = refl

two_states-IsKeyed : IsKeyed two_states
two_states-IsKeyed =
    rw two_states-insert (
      insert-IsKeyed (state (lit "audit") 9) _
        (insert-IsKeyed (state (lit "dns") 5) [] nil-IsKeyed))

abbrev point : Checkpoint
point = record {
  num_updates = 1;
  max_updates = pos 2;
  flush_interval = pos nano_per_second;
  sort = [];
  states = two_states;
  save = state (lit "dns") 6 ∷ [];
  done = false;
  running = true;
}

abbrev world : World
world = record { disk = record { file = some (1 ∷ []); temp = none }; point = point }

-- The directory is missing at first.
abbrev os_ok : Os
os_ok = record {
  create_first = not_exist;
  mkdir_ok = true;
  create_again = created;
  now = pos 100;
  cut_short = none;
  rename_ok = true;
}

os_ok-Succeeds : Succeeds os_ok
unfolding create_temp
os_ok-Succeeds = record { makes = refl; writes = refl; renames = refl }

-- The disk is full.
abbrev os_full : Os
os_full = record os_ok { create_first = created; cut_short = some (0 ∷ 9 ∷ []) }

world-Inv : Inv codec world
world-Inv = record { keyed = two_states-IsKeyed; clean = λ zero. absurd (omega arith) }

-- The names are written in ascending order.
snapshot-two_states :
    (snapshot (pos 1) two_states).states ≡ state (lit "audit") 9 ∷ state (lit "dns") 5 ∷ []
unfolding snapshot sort_texts keys lookup text_eq text_le
snapshot-two_states = refl

full_disk :
    ((flush codec os_full world).0.disk.file ≡ some (1 ∷ []))
    × ((flush codec os_full world).1 ≢ none)
unfolding flush codec
full_disk = (refl, λ e. cc)

saved_world : World
saved_world = (persist codec os_ok world).0

saved_world-work : work codec os_ok from_timer world ≡ some saved_world
unfolding work saved_world
saved_world-work = refl

saved_world-zero : saved_world.point.num_updates ≡ 0
unfolding saved_world persist flush codec
saved_world-zero = refl

restart_finds_example :
    (c : Checkpoint) × ((new_checkpoint codec os_ok true (pos 0) (pos 0) saved_world.disk).1
      ≡ some c)
    × ((k : Text) → lookup k c.states ≡ lookup k saved_world.point.states)
restart_finds_example =
    restart_finds os_ok (pos 0) (pos 0) codec-ReadsBack codec-AlwaysWrites world-Inv
      (next here (works os_ok from_timer saved_world-work)) saved_world-zero os_ok-Succeeds

Reach-Inv_example : Inv codec saved_world
Reach-Inv_example = Reach-Inv (next here (works os_ok from_timer saved_world-work)) world-Inv

flush_atomic_example :
    (((flush codec os_full world).1 ≡ none)
      × Holds codec os_full world (flush codec os_full world).0.disk.file)
    ⊎ (((flush codec os_full world).1 ≢ none)
        × ((flush codec os_full world).0.disk.file ≡ world.disk.file))
flush_atomic_example = flush_atomic codec os_full world

-- A first start, with a batch size that is too small.
first_start : Checkpoint
first_start = record (fresh_point (pos 0) (pos 0) []) { running = true }

first_start-eq :
    (new_checkpoint codec os_ok true (pos 0) (pos 0) (record { file = none; temp = none })).1
    ≡ some first_start
unfolding new_checkpoint start_point flush codec first_start fresh_point keys sort_texts
first_start-eq = refl

abbrev turned : Dict EventLogState
turned = (lit "audit", state (lit "audit") 9) ∷ (lit "dns", state (lit "dns") 5) ∷ []

keys-perm : Perm (keys two_states) (keys turned)
unfolding keys
keys-perm = Perm.swap (lit "audit") (lit "dns") []

lookup-turned : (k : Text) → lookup k two_states ≡ lookup k turned
unfolding lookup
lookup-turned k = ground (arith, text_eq_iff k (lit "dns"), text_eq_iff k (lit "audit"))

taken_world : World
taken_world = (persist codec os_ok (store (state (lit "dns") 6) [] world)).0

taken_world-work : work codec os_ok from_save world ≡ some taken_world
unfolding work take_save store taken_world
taken_world-work = refl

shutdown_saves_example :
    (w' : World) × (work codec os_ok from_done (shutdown world) ≡ some w')
    × Saved codec w'.disk w'.point.states
    × (w'.point.states ≡ world.point.states)
    × (w'.point.save ≡ world.point.save)
    × (w'.point.running ≡ false)
shutdown_saves_example =
    shutdown_saves codec os_ok world codec-AlwaysWrites os_ok-Succeeds world-Inv refl

timer_run : Reach codec world saved_world
timer_run = next here (works os_ok from_timer saved_world-work)

Reach-Trail_example : Trail (view codec world) (calls timer_run) (view codec saved_world)
Reach-Trail_example = Reach-Trail codec-ReadsBack two_states-IsKeyed timer_run

abbrev no_states : StateMap
no_states = of (record { entries = []; keyed = nil-IsKeyed; nodup = tt })

abbrev dns_state : EventLogState
dns_state = state (lit "dns") 3

abbrev win_state : EventLogState
win_state = state (lit "win") 4

document_of_map_example :
    let m = file dns_state no_states in
    let n = file win_state no_states in
    (recover (document (pos 9) m) ≡ m)
    × ((document (pos 9) m ≡ document (pos 9) n) ↔ (m ≡ n))
    × (dns_state.name ≢ win_state.name
        → file dns_state (file win_state m) ≡ file win_state (file dns_state m))
document_of_map_example =
    document_of_map (pos 9) (file dns_state no_states) (file win_state no_states) dns_state
      win_state
