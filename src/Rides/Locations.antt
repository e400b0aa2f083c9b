-- ===== src/Rides/Locations.antt =====
-- helpers/canonical_locations.go: the coordinates of well known labels.
use uni_pool_new_backend.Base.{
  ℕ, Bool, ◌&&◌, ◌||◌, Option, none, some, String, List, [], map, leb, if◌then◌else◌,
}
use uni_pool_new_backend.Text.{codes, codes_eq, normalize, fields_from, join_fields}
use uni_pool_new_backend.Model.{Ride, Coordinate}

abbrev pub canonical_vit_vellore_lat : Coordinate
canonical_vit_vellore_lat = Coordinate.north_east 1296919300

abbrev pub canonical_vit_vellore_lon : Coordinate
canonical_vit_vellore_lon = Coordinate.north_east 7915596800

abbrev pub keep_letter : ℕ → ℕ
keep_letter c = if (leb b'a' c && leb c b'z') || (leb b'0' c && leb c b'9') then c else 32

unfoldable pub normalize_canonical_location_label : String → List ℕ
normalize_canonical_location_label label =
    join_fields (fields_from [] (map keep_letter (normalize label)))

-- The keys of canonicalLocationCoords, which all have the same value.
unfoldable pub is_canonical : List ℕ → Bool
is_canonical label =
    codes_eq label (codes "vit vellore")
    || (codes_eq label (codes "vit vellore india")
        || (codes_eq label (codes "vit vellore main gate")
            || (codes_eq label (codes "vellore institute of technology")
                || (codes_eq label (codes "vellore institute of technology vellore")
                    || codes_eq label (codes "vellore institute of technology india")))))

unfoldable pub canonical_location_coords : String → Option (Coordinate × Coordinate)
canonical_location_coords label =
    if is_canonical (normalize_canonical_location_label label)
    then some (canonical_vit_vellore_lat, canonical_vit_vellore_lon)
    else none

abbrev pub set_start : Option (Coordinate × Coordinate) → Ride → Ride
set_start none r = r
set_start (some (lat, lon)) r = record r { start_latitude = some lat; start_longitude = some lon }

abbrev pub set_end : Option (Coordinate × Coordinate) → Ride → Ride
set_end none r = r
set_end (some (lat, lon)) r = record r { end_latitude = some lat; end_longitude = some lon }

-- `applyCanonicalRideCoordinates` of routes/rides/createRide.go.
unfoldable pub apply_canonical_ride_coordinates : Ride → Ride
apply_canonical_ride_coordinates r =
    set_end (canonical_location_coords r.end_location)
      (set_start (canonical_location_coords r.start_location) r)
