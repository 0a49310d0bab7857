-- ===== src/Tests/Session.antt =====
-- Sessions over a concrete state directory.
use jak3_ap.Prelude.{◌≡◌, ◌≤◌, refl, ap, String, Bool, true, false, none, some, [], ◌∷◌, Result, ok}
use jak3_ap.Persistence.State.{NativeSaveDescriptor, AuthenticatedSlot, PersistentState}
use jak3_ap.Persistence.Identity.{
  expected_contract, compare_contract, validate_uuid, validate_native_save_slot,
  validate_identity_text, validate_native_save, is_bound, validate_binding,
}
use jak3_ap.Persistence.Validate.{
  validate_state, validate_header, validate_application, validate_footer, post_init,
}
use jak3_ap.Persistence.Create.{unbound_state, bind}
use jak3_ap.Persistence.Equal.{same_state, same_texts, same_numbers}
use jak3_ap.Persistence.Journal.{validate_journal}
use jak3_ap.Persistence.Locations.{validate_locations}
use jak3_ap.IdSet.{member, subset, sorted_set, same_list, is_empty, intersection}
use jak3_ap.Registry.{item_ids, location_ids}
use jak3_ap.Repository.{
  Disk, Stage, StateOpenStatus, commit, load_state_file, check_commit, quarantine_orphan_temps,
}
use jak3_ap.Repository.Open.{load_or_create}
use jak3_ap.Repository.Session.{
  Root, acquire, release, put_files, StateSession, check_session_commit, session_commit,
  session_close, close_files, same_binding, session_bind,
}
use jak3_ap.Repository.Session.Open.{
  open_session, open_files, preflight, begin_session, bind_first, run_check, session_of,
  settle_open,
}
use jak3_ap.Repository.Session.Open.Begins.{IsBegun, open_session-IsBegun}
use jak3_ap.Repository.Session.System.{open_count, lock_count, opens, start, later}
use jak3_ap.Repository.Session.InSync.{SessionLeft, session_commit-SessionLeft}
use jak3_ap.Repository.Session.Ends.{session_close-acquire}
use jak3_ap.Repository.Session.Binding.{SameBinding}
use jak3_ap.Repository.Session.Binding.Kept.{
  Calls-SameBinding, binding_to, committing, none_yet, one_more,
}
use jak3_ap.Repository.Session.Exclusive.{Reach-open_count}
use jak3_ap.Repository.Session.Switch.{session_switch, session_switch-ShutDown}
use jak3_ap.Repository.Session.Shutdown.{ShutDown}
use jak3_ap.Repository.Session.Live.{open_live, open_live-SameSlot}
use jak3_ap.Encoding.Authorization.{require_save_identity_authorization}
use jak3_ap.Encoding.Authorization.OneSlot.{SameSlot}
use jak3_ap.Tests.Encoding.{plain_library, jak, jak_authorized}
use jak3_ap.Tests.Sample.{platform, save, state_id, playing}
use jak3_ap.Tests.Repository.{plain, disk, stops}

abbrev no_fault : Stage → Bool
no_fault stage = false

abbrev directory : String → Disk PersistentState
directory identity = disk

abbrev free_root : Root PersistentState
free_root = record { locked = false; files = directory }

abbrev opened_session : StateSession
opened_session = record {
  native_save = save;
  authenticated_slot = none;
  state = record playing { state_revision = 8; last_clean_shutdown = false };
  status = StateOpenStatus.loaded;
  binding_performed = false;
  is_closed = false;
}

opens_it :
    (open_session plain no_fault none save none true state_id free_root).0 ≡ ok opened_session
unfolding open_session open_files preflight load_or_create load_state_file begin_session bind_first
    session_of settle_open acquire commit validate_state validate_header compare_contract
    expected_contract validate_uuid validate_native_save_slot validate_identity_text
    validate_native_save is_bound validate_binding validate_journal item_ids location_ids member
    validate_application validate_locations subset sorted_set same_list is_empty intersection
    validate_footer unbound_state post_init check_commit
opens_it = refl

abbrev opened_root : Root PersistentState
opened_root = (open_session plain no_fault none save none true state_id free_root).1

opens_both :
    open_session plain no_fault none save none true state_id free_root
    ≡ (ok opened_session, opened_root)
opens_both = ap (λ (r : Result StateSession). (r, opened_root)) opens_it

Reach-open_count_example :
    (open_count (opened_session ∷ []) ≤ 1)
    × (open_count (opened_session ∷ []) ≡ lock_count opened_root.locked)
Reach-open_count_example =
    Reach-open_count plain directory (record { root = opened_root; sessions = opened_session ∷ [] })
      (later start
        (opens no_fault none save none true state_id opened_session opened_root opens_both))

open_session-IsBegun_example :
    IsBegun plain no_fault none save none opened_session (opened_root.files save.identity)
open_session-IsBegun_example =
    open_session-IsBegun plain no_fault none save none true state_id free_root opened_root
      opened_session opens_both

-- the next state that the session commits
abbrev won : PersistentState
won = record opened_session.state { goal_completed = true }

won_checked : check_session_commit plain won opened_session ≡ ok tt
unfolding check_session_commit same_binding validate_state validate_header compare_contract
    expected_contract validate_uuid validate_native_save_slot validate_identity_text
    validate_native_save is_bound validate_binding validate_journal item_ids location_ids member
    validate_application validate_locations subset sorted_set same_list is_empty intersection
    validate_footer unbound_state
won_checked = refl

session_commit-SessionLeft_example :
    SessionLeft plain won opened_session
      (session_commit plain stops won opened_session (opened_root.files save.identity))
session_commit-SessionLeft_example =
    session_commit-SessionLeft plain stops won opened_session (opened_root.files save.identity)
      open_session-IsBegun_example.in_sync won_checked refl

session_close-acquire_example :
    ((session_close plain stops true opened_session opened_root).1.is_closed ≡ true)
    × (acquire true (session_close plain stops true opened_session opened_root).2 ≡ (
      ok tt,
      record (session_close plain stops true opened_session opened_root).2 { locked = true },
    ))
session_close-acquire_example =
    session_close-acquire plain stops true opened_session opened_root refl

-- a session whose state is bound to the second slot of the first team
abbrev bound_session : StateSession
bound_session = record opened_session {
  state = record opened_session.state {
    seed_identifier = some "seed";
    team = some 0;
    slot = some 1;
    slot_name = some "Jak";
  };
}

bound_session-is_bound : is_bound bound_session.state ≡ ok true
unfolding is_bound
bound_session-is_bound = refl

-- the session is asked to bind to another slot, and then commits
abbrev other_slot : AuthenticatedSlot
other_slot = record jak { slot = 2 }

abbrev after_bind : StateSession
after_bind = (session_bind plain no_fault other_slot bound_session disk).1

Calls-SameBinding_example :
    SameBinding (session_commit plain stops won after_bind disk).1.state bound_session.state
Calls-SameBinding_example =
    Calls-SameBinding plain bound_session (session_commit plain stops won after_bind disk).1
      (one_more (one_more none_yet (binding_to no_fault other_slot disk))
        (committing stops won disk))
      bound_session-is_bound

-- a native save whose identity is the authorized one, and its state, which is not bound
abbrev live_save : NativeSaveDescriptor
live_save = record save { identity = state_id }

abbrev live_directory : String → Disk PersistentState
live_directory identity = record disk {
  primary = some (record playing { native_save_identity = state_id });
}

abbrev live_root : Root PersistentState
live_root = record { locked = false; files = live_directory }

abbrev live_session : StateSession
live_session = record {
  native_save = live_save;
  authenticated_slot = some jak;
  state = record playing {
    native_save_identity = state_id;
    state_revision = 8;
    last_clean_shutdown = false;
    seed_identifier = some "seed";
    team = some 0;
    slot = some 1;
    slot_name = some "Jak";
  };
  status = StateOpenStatus.bound;
  binding_performed = true;
  is_closed = false;
}

live_opens :
    (open_live plain_library plain no_fault live_save jak
      (some jak_authorized.0)
      true
      state_id
      live_root).0
    ≡ ok live_session
unfolding open_live open_session open_files preflight load_or_create load_state_file begin_session
    bind_first run_check session_of settle_open acquire commit validate_state validate_header
    compare_contract expected_contract validate_uuid validate_native_save_slot
    validate_identity_text validate_native_save is_bound validate_binding validate_journal item_ids
    location_ids member validate_application validate_locations subset sorted_set same_list is_empty
    intersection validate_footer unbound_state post_init check_commit bind
live_opens = rw (jak_authorized.1) refl

abbrev live_root_after : Root PersistentState
live_root_after =
    (open_live plain_library plain no_fault live_save jak (some jak_authorized.0) true state_id
      live_root).1

open_live-SameSlot_example :
    (require_save_identity_authorization plain_library platform (some jak_authorized.0) state_id jak
      ≡ ok tt)
    × ((b : AuthenticatedSlot)
        → require_save_identity_authorization plain_library platform
            (some jak_authorized.0)
            state_id
            b
          ≡ ok tt
        → SameSlot jak b)
open_live-SameSlot_example =
    open_live-SameSlot plain_library plain no_fault live_save jak (some jak_authorized.0) true
      state_id live_root live_root_after live_session
      (ap (λ (r : Result StateSession). (r, live_root_after)) live_opens) refl

-- the session switches to the save that it has, and finds the shutdown clean
switches :
    (session_switch plain no_fault save none true state_id opened_session opened_root).0
    ≡ ok (record opened_session { state = record opened_session.state { state_revision = 10 } })
unfolding session_switch session_close close_files session_commit check_session_commit same_binding
    release put_files open_session open_files preflight load_or_create load_state_file begin_session
    bind_first session_of settle_open acquire commit validate_state validate_header compare_contract
    expected_contract validate_uuid validate_native_save_slot validate_identity_text
    validate_native_save is_bound validate_binding validate_journal item_ids location_ids member
    validate_application validate_locations subset sorted_set same_list is_empty intersection
    validate_footer unbound_state post_init check_commit quarantine_orphan_temps
switches = refl

session_switch-ShutDown_example :
    ShutDown plain opened_session
      (session_switch plain no_fault save none true state_id opened_session opened_root).1
      ((session_close plain no_fault true opened_session opened_root).2.files save.identity)
    × IsBegun plain no_fault none save none
        (record opened_session { state = record opened_session.state { state_revision = 10 } })
        ((session_switch plain no_fault save none true state_id opened_session opened_root).2.files
          save.identity)
session_switch-ShutDown_example =
    session_switch-ShutDown plain no_fault save none true state_id opened_session
      (record opened_session { state = record opened_session.state { state_revision = 10 } })
      opened_root refl open_session-IsBegun_example.in_sync switches

-- states compare by their fields
same_as_itself : same_state playing playing ≡ true
unfolding same_state unbound_state same_texts same_numbers same_list expected_contract
same_as_itself = refl

differs_when_won : same_state playing (record playing { goal_completed = true }) ≡ false
unfolding same_state unbound_state same_texts same_numbers same_list expected_contract
differs_when_won = refl
