-- ===== src/Broker/Services.antt =====
-- internal/migration/broker.go and writer_fence_inhibitor.go: the loops over a fence's services, and
-- the boot inhibitors.
pub mod Keeps
pub mod Overlap
use askio_agent.Base.{
  String, Bool, true, false, not, ◌||◌, ◌&&◌, Option, none, some, List, [], ◌∷◌, mem_string,
  equal_fold, if◌then◌else◌,
}
use askio_agent.Base.Action.{Action, pure, raise, rethrow, check, match_option, ◌>>=◌, ◌>>◌}
use askio_agent.Broker.State.{Broker}
use askio_agent.Broker.System.{
  System, Verb, stop, start, Marker, present, missing, unsafe, foreign, unreadable, call,
}

unfoldable pub folds_into : String → List String → Bool
folds_into s [] = false
folds_into s (t ∷ ts) = equal_fold s t || folds_into s ts

unfoldable pub intersects_services : List String → List String → Bool
unfolding folds_into
intersects_services [] right = false
intersects_services (s ∷ left) right = folds_into s right || intersects_services left right

unfoldable pub same_bool : Bool → Bool → Bool
same_bool true b = b
same_bool false b = not b

module _ {Host : Type 0} (sys : System Host) where
  -- `controller.IsActive`.
  unfoldable pub is_active : String → Action (Broker Host) Bool
  is_active service = do
    answer ← call (sys.query_active service)
    match_option answer (raise "writer service state is not provable") pure

  -- `none` is the nil slice, returned when one service's state is not known.
  unfoldable pub previously_active_services :
      List String → Action (Broker Host) (Option (List String))
  previously_active_services [] = pure (some [])
  previously_active_services (service ∷ rest) = do
    answer ← call (sys.query_active service)
    match_option answer (pure none) λ b. do
      others ← previously_active_services rest
      match_option others (pure none) λ active. pure (some (if b then service ∷ active else active))

  unfoldable pub verify_services_inactive : List String → Action (Broker Host) (Unit {0})
  verify_services_inactive [] = pure tt
  verify_services_inactive (service ∷ rest) = do
    b ← is_active service
    check (not b) "writer service is not provably inactive"
    verify_services_inactive rest

  unfoldable pub verify_expected_service_states :
      List String → List String → Action (Broker Host) (Unit {0})
  verify_expected_service_states [] expected = pure tt
  verify_expected_service_states (service ∷ rest) expected = do
    b ← is_active service
    check (same_bool b (mem_string service expected))
        "writer service recovery state is not provable"
    verify_expected_service_states rest expected

  -- Every service is told to stop, also after a failure; the answer tells whether one failed.
  unfoldable pub stop_services : List String → Action (Broker Host) Bool
  stop_services [] = pure false
  stop_services (service ∷ rest) = do
    e ← call (sys.operate stop service)
    failed ← stop_services rest
    match_option e (pure failed) λ _. pure true

  -- The first failure ends the loop.
  unfoldable pub start_services : List String → Action (Broker Host) Bool
  start_services [] = pure false
  start_services (service ∷ rest) = do
    e ← call (sys.operate start service)
    match_option e (start_services rest) λ _. pure true

  unfoldable pub verify_drop_ins : List String → Action (Broker Host) (Unit {0})
  verify_drop_ins [] = pure tt
  verify_drop_ins (service ∷ rest) = do
    e ← call (sys.verify_drop_in service)
    rethrow e
    verify_drop_ins rest

  unfoldable pub place_marker : String → Marker → Action (Broker Host) (Unit {0})
  place_marker service present = pure tt
  place_marker service missing = do e ← call (sys.write_marker service); rethrow e
  place_marker service unsafe = raise "writer-fence inhibitor marker is unsafe"
  place_marker service foreign = raise "writer-fence inhibitor marker has the wrong owner"
  place_marker service (unreadable e) = raise e

  unfoldable pub place_markers : List String → Action (Broker Host) (Unit {0})
  place_markers [] = pure tt
  place_markers (service ∷ rest) = do
    found ← call (sys.stat_marker service)
    place_marker service found
    place_markers rest

  unfoldable pub activate_service_fence_inhibitors : List String → Action (Broker Host) (Unit {0})
  activate_service_fence_inhibitors services = do
    verify_drop_ins services
    prepared ← call sys.prepare_marker_root
    rethrow prepared
    place_markers services
    synced ← call sys.sync_marker_root
    rethrow synced

  unfoldable pub remove_markers : List String → Action (Broker Host) (Unit {0})
  remove_markers [] = pure tt
  remove_markers (service ∷ rest) = do
    e ← call (sys.verify_drop_in service)
    rethrow e
    removed ← call (sys.remove_marker service)
    rethrow removed
    remove_markers rest

  unfoldable pub release_service_fence_inhibitors : List String → Action (Broker Host) (Unit {0})
  release_service_fence_inhibitors services = do
    remove_markers services
    synced ← call sys.sync_marker_root
    rethrow synced
