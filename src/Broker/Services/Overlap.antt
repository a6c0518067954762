-- ===== src/Broker/Services/Overlap.antt =====
-- internal/migration/writer_fence_inhibitor.go, `intersectsServices`: the order of its arguments does
-- not matter.
use askio_agent.Base.{String, List, [], ◌∷◌, ◌≡◌, refl, sym, ◌||◌, false, equal_fold_comm, arith}
use askio_agent.Broker.Services.{intersects_services, folds_into}

pub intersects-nil : (left : List String) → intersects_services left [] ≡ false
unfolding intersects_services folds_into
intersects-nil [] = refl
intersects-nil (s ∷ left) = intersects-nil left

intersects-cons :
    (left right : List String) (t : String)
    → intersects_services left (t ∷ right) ≡ (folds_into t left || intersects_services left right)
unfolding intersects_services folds_into
intersects-cons [] right t = refl
intersects-cons (s ∷ left) right t =
    ground (arith, equal_fold_comm s t, intersects-cons left right t)

pub intersects_services_comm :
    (left right : List String) → intersects_services left right ≡ intersects_services right left
unfolding intersects_services
intersects_services_comm [] right = sym (intersects-nil right)
intersects_services_comm (s ∷ left) right =
    ground (arith, intersects-cons right left s, intersects_services_comm left right)
