-- ===== src/Chat/Members.antt =====
-- What getRideViewerRole and canAccessDMRoom of routes/chat/chat.go let through.
use uni_pool_new_backend.Base.{
  ℕ, ◌≡◌, ◌≢◌, ◌⊎◌, refl, subst, inl, inr, true, false, not, ◌&&◌, Option, none, some, List, ◌==◌,
  is_none, if◌then◌else◌, arith, Memᴰ, find_where, find-member, find_where-hit, count_where,
  count-member, Bool-cases, ==→eq, &&_split,
}
use uni_pool_new_backend.Booking.Load.Rows.{is_none→none}
use uni_pool_new_backend.Model.{Ride, Booking, RequestStatus}
use uni_pool_new_backend.Store.{Db, Env, find_role, find_relation}
use uni_pool_new_backend.Chat.Rooms.{parse_dm_room_id}
use uni_pool_new_backend.Chat.Access.{
  ViewerRole, role_host, role_of_status, role_of_booking, is_viewer_booking, role_in,
  get_ride_viewer_role, is_participant, joins, relates, is_related, DmAccess, invalid, denied,
  failed, allowed, access_of, can_access_dm_room,
}

-- The host, or the passenger of an undeleted accepted booking.
pub record IsMember (user_id ride_id : ℕ) (db : Db) : Type 0 where
  pub ride : Ride
  pub there : Memᴰ ride db.rides
  pub at : ride.id ≡ ride_id
  pub aboard :
      (ride.host_user_id ≡ user_id)
      ⊎ ((b : Booking) × Memᴰ b db.bookings
          × (b.ride_id ≡ ride_id)
          × (b.passenger_id ≡ user_id)
          × (b.deleted_at ≡ none)
          × (b.request_status ≡ RequestStatus.accepted))

-- One of the two has an undeleted booking, of any status, on an undeleted ride of the other.
pub record IsAcquainted (user_id other_id : ℕ) (db : Db) : Type 0 where
  pub booking : Booking
  pub ride : Ride
  pub booked : Memᴰ booking db.bookings
  pub offered : Memᴰ ride db.rides
  pub joined : ride.id ≡ booking.ride_id
  pub undeleted : (booking.deleted_at ≡ none) × (ride.deleted_at ≡ none)
  pub between :
      ((ride.host_user_id ≡ user_id) × (booking.passenger_id ≡ other_id))
      ⊎ ((ride.host_user_id ≡ other_id) × (booking.passenger_id ≡ user_id))

accepted_status :
    (s : RequestStatus) → is_participant (role_of_status s) ≡ true → s ≡ RequestStatus.accepted
accepted_status RequestStatus.blank e = absurd (ground arith)
accepted_status RequestStatus.pending e = absurd (ground arith)
accepted_status RequestStatus.accepted e = refl
accepted_status RequestStatus.rejected e = absurd (ground arith)
accepted_status (RequestStatus.other t) e = absurd (ground arith)

module _ (env : Env) (user_id ride_id : ℕ) (db : Db) where
  booking_role :
      (r : Ride) (o : Option Booking)
      → find_where (is_viewer_booking user_id ride_id) db.bookings ≡ o
      → Memᴰ r db.rides
      → r.id ≡ ride_id
      → is_participant (role_of_booking o) ≡ true
      → IsMember user_id ride_id db
  booking_role r none found there at e = absurd (ground arith)
  booking_role r (some b) found there at e =
      let (ride, rest) =
        &&_split (b.ride_id == ride_id) (b.passenger_id == user_id && is_none b.deleted_at)
          (find_where-hit (is_viewer_booking user_id ride_id) db.bookings b found) in
      let (passenger, undeleted) =
        &&_split (b.passenger_id == user_id) (is_none b.deleted_at) rest in
      record {
        ride = r;
        there = there;
        at = at;
        aboard = inr (
          b,
          find-member (is_viewer_booking user_id ride_id) db.bookings b found,
          ==→eq b.ride_id ride_id ride,
          ==→eq b.passenger_id user_id passenger,
          is_none→none b.deleted_at undeleted,
          accepted_status b.request_status e,
        );
      }

  pub role_in-IsMember :
      (o : Option Ride)
      → find_where (λ r. r.id == ride_id) db.rides ≡ o
      → is_participant (role_in user_id ride_id db.bookings o) ≡ true
      → IsMember user_id ride_id db
  unfolding role_in
  role_in-IsMember none found e = absurd (ground arith)
  role_in-IsMember (some r) found e =
      let there = find-member (λ (x : Ride). x.id == ride_id) db.rides r found in
      let at =
        ==→eq r.id ride_id (find_where-hit (λ (x : Ride). x.id == ride_id) db.rides r found) in
      elim (Bool-cases (r.host_user_id == user_id)) [
        | inl hosts ↦ record {
          ride = r;
          there = there;
          at = at;
          aboard = inl (==→eq r.host_user_id user_id hosts);
        }
        | inr other ↦
            booking_role r (find_where (is_viewer_booking user_id ride_id) db.bookings) refl there
              at
              (subst
                (λ c.
                  is_participant (
                    if c
                    then role_host
                    else role_of_booking
                        (find_where (is_viewer_booking user_id ride_id) db.bookings))
                  ≡ true)
                other e)
      ]

  pub get_ride_viewer_role-IsMember :
      (role : ViewerRole)
      → get_ride_viewer_role env user_id ride_id db ≡ some role
      → is_participant role ≡ true
      → IsMember user_id ride_id db
  unfolding get_ride_viewer_role
  get_ride_viewer_role-IsMember role e on = elim (Bool-cases (env.fails find_role)) [
    | inl fails ↦ absurd (ground arith)
    | inr works ↦
        let same : role_in user_id ride_id db.bookings (find_where (λ r. r.id == ride_id) db.rides)
            ≡ role =
          ground arith in
        role_in-IsMember (find_where (λ r. r.id == ride_id) db.rides) refl (rw same on)
  ]

not_zero : (n : ℕ) → not (n == 0) ≡ true → n ≢ 0
not_zero n h = ground arith

is_related-IsAcquainted :
    (user_id other_id : ℕ) (db : Db)
    → is_related user_id other_id db ≡ true
    → IsAcquainted user_id other_id db
unfolding is_related
is_related-IsAcquainted user_id other_id db e =
    let (b, booked, hit) =
      count-member (relates user_id other_id db.rides) db.bookings (not_zero _ e) in
    let (undeleted, some_ride) =
      &&_split (is_none b.deleted_at) (not (count_where (joins user_id other_id b) db.rides == 0))
        hit in
    let (r, offered, fits) =
      count-member (joins user_id other_id b) db.rides (not_zero _ some_ride) in
    record {
      booking = b;
      ride = r;
      booked = booked;
      offered = offered;
      joined = ground arith;
      undeleted = (is_none→none b.deleted_at undeleted, is_none→none r.deleted_at (ground arith));
      between = elim (Bool-cases (r.host_user_id == user_id && b.passenger_id == other_id)) [
        | inl one ↦ inl (ground arith, ground arith)
        | inr other ↦ inr (ground arith, ground arith)
      ];
    }

module _ (uuid_string : ℕ → List ℕ) (uuid_parse : List ℕ → Option ℕ) where
  -- The room's name parses to two users, of whom the caller is one, and the two are acquainted.
  pub record IsDmMember (user_id : ℕ) (room_id : List ℕ) (db : Db) : Type 0 where
    pub first : ℕ
    pub second : ℕ
    pub parsed : parse_dm_room_id uuid_string uuid_parse room_id ≡ some (first, second)
    pub acquainted :
        ((user_id ≡ first) × IsAcquainted user_id second db)
        ⊎ ((user_id ≡ second) × IsAcquainted user_id first db)

  pub related-IsDmMember :
      (user_id a b : ℕ) (room_id : List ℕ) (db : Db)
      → parse_dm_room_id uuid_string uuid_parse room_id ≡ some (a, b)
      → (not (user_id == a) && not (user_id == b)) ≡ false
      → is_related user_id (if user_id == b then a else b) db ≡ true
      → IsDmMember user_id room_id db
  related-IsDmMember user_id a b room_id db parsed one related =
      let known = is_related-IsAcquainted user_id (if user_id == b then a else b) db related in
      record {
        first = a;
        second = b;
        parsed = parsed;
        acquainted = elim (Bool-cases (user_id == b)) [
          | inl second ↦ inr (
            ==→eq user_id b second,
            subst (λ x. IsAcquainted user_id x db) (rw second refl) known,
          )
          | inr first ↦
              inl (ground arith, subst (λ x. IsAcquainted user_id x db) (rw first refl) known)
        ];
      }

  access_of-IsDmMember :
      (env : Env) (user_id other : ℕ) (room_id : List ℕ) (db : Db) (pair : Option (ℕ × ℕ))
      → parse_dm_room_id uuid_string uuid_parse room_id ≡ pair
      → access_of env user_id pair db ≡ allowed other
      → IsDmMember user_id room_id db
  unfolding access_of
  access_of-IsDmMember env user_id other room_id db none parsed e = absurd (ground arith)
  access_of-IsDmMember env user_id other room_id db (some (a, b)) parsed e =
      elim (Bool-cases (not (user_id == a) && not (user_id == b))) [
        | inl stranger ↦ absurd (ground arith)
        | inr one ↦ elim (Bool-cases (env.fails find_relation)) [
          | inl fails ↦ absurd (ground arith)
          | inr works ↦ elim (Bool-cases (is_related user_id (if user_id == b then a else b) db)) [
            | inr apart ↦ absurd (ground arith)
            | inl related ↦ related-IsDmMember user_id a b room_id db parsed one related
          ]
        ]
      ]

  pub can_access_dm_room-IsDmMember :
      (env : Env) (user_id other : ℕ) (room_id : List ℕ) (db : Db)
      → can_access_dm_room uuid_string uuid_parse env user_id room_id db ≡ allowed other
      → IsDmMember user_id room_id db
  unfolding can_access_dm_room
  can_access_dm_room-IsDmMember env user_id other room_id db e =
      access_of-IsDmMember env user_id other room_id db
        (parse_dm_room_id uuid_string uuid_parse room_id) refl e

pub DmAccess-cases :
    (x : DmAccess)
    → ((x ≡ invalid) ⊎ ((x ≡ denied) ⊎ (x ≡ failed))) ⊎ ((other : ℕ) × (x ≡ allowed other))
DmAccess-cases invalid = inl (inl refl)
DmAccess-cases denied = inl (inr (inl refl))
DmAccess-cases failed = inl (inr (inr refl))
DmAccess-cases (allowed other) = inr (other, refl)
