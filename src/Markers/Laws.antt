-- ===== src/Markers/Laws.antt =====
-- What `check_required_loader_attributes` finds, with its cache.
use pytest_salt_factories.Base.{
  ◌≡◌, false, not, ◌&&◌, ◌||◌, List, [], ◌∷◌, add, remove, contains, contains-add, contains-remove,
  arith,
}
use pytest_salt_factories.Base.Text.{Text, text_eq}
use pytest_salt_factories.Markers.{
  Missing, take_cached, is_available, search, check_required_loader_attributes,
}

take_cached-not_available :
    (cached : List Text) (s : Missing) (x : Text)
    → contains (take_cached cached s).not_available x
      ≡ (contains s.not_available x || (contains cached x && contains s.items x))
unfolding take_cached contains
take_cached-not_available [] s x = ground arith
take_cached-not_available (item ∷ cached) s x = ground (
  arith,
  take_cached-not_available cached s x,
  take_cached-not_available cached
      (record { not_available = add item s.not_available; items = remove item s.items }) x,
  contains-add item x s.not_available,
  contains-remove item x s.items,
)

take_cached-items :
    (cached : List Text) (s : Missing) (x : Text)
    → contains (take_cached cached s).items x ≡ (contains s.items x && not (contains cached x))
unfolding take_cached contains
take_cached-items [] s x = ground arith
take_cached-items (item ∷ cached) s x = ground (
  arith,
  take_cached-items cached s x,
  take_cached-items cached
      (record { not_available = add item s.not_available; items = remove item s.items }) x,
  contains-remove item x s.items,
)

search-not_available :
    (available required : List Text) (s : Missing) (x : Text)
    → contains (search available required s).not_available x
      ≡ (contains s.not_available x || (contains required x && not (is_available available x)))
unfolding search contains
search-not_available available [] s x = ground arith
search-not_available available (name ∷ required) s x = ground (
  arith,
  search-not_available available required s x,
  search-not_available available required
      (record { not_available = add name s.not_available; items = add name s.items }) x,
  contains-add name x s.not_available,
)

search-items :
    (available required : List Text) (s : Missing) (x : Text)
    → contains (search available required s).items x
      ≡ (contains s.items x || (contains required x && not (is_available available x)))
unfolding search contains
search-items available [] s x = ground arith
search-items available (name ∷ required) s x = ground (
  arith,
  search-items available required s x,
  search-items available required
      (record { not_available = add name s.not_available; items = add name s.items }) x,
  contains-add name x s.items,
)

-- The items that are reported are exactly the required ones that the cache holds or that are not
-- available, and exactly those are in the cache from then on, besides what it held.
pub check_required_loader_attributes_lem :
    (available cached required : List Text) (x : Text)
    → (contains (check_required_loader_attributes available cached required).not_available x
        ≡ (contains required x && (contains cached x || not (is_available available x))))
      × (contains (check_required_loader_attributes available cached required).items x
          ≡ (contains cached x || (contains required x && not (is_available available x))))
unfolding check_required_loader_attributes contains
check_required_loader_attributes_lem available cached required x =
    let start : Missing = record { not_available = []; items = required } in
    let known = take_cached cached start in
    let next : Missing = record { not_available = known.not_available; items = cached } in
    (
      ground (
        arith,
        search-not_available available known.items next x,
        take_cached-not_available cached start x,
        take_cached-items cached start x,
      ),
      ground (arith, search-items available known.items next x, take_cached-items cached start x),
    )

-- The cache holds no item that is available.
abbrev pub IsCoherent : List Text → List Text → Type 0
IsCoherent available cached = (x : Text) → (contains cached x && is_available available x) ≡ false

-- With a cache that holds no available item, exactly the required items that are not available are
-- reported.
pub check_required-coherent :
    (available cached required : List Text) (x : Text)
    → IsCoherent available cached
    → contains (check_required_loader_attributes available cached required).not_available x
      ≡ (contains required x && not (is_available available x))
check_required-coherent available cached required x h =
    ground (arith, h x, (check_required_loader_attributes_lem available cached required x).0)

-- The cache stays such.
pub check_required-IsCoherent :
    (available cached required : List Text)
    → IsCoherent available cached
    → IsCoherent available (check_required_loader_attributes available cached required).items
check_required-IsCoherent available cached required h x =
    ground (arith, h x, (check_required_loader_attributes_lem available cached required x).1)
