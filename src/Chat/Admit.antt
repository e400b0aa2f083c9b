-- ===== src/Chat/Admit.antt =====
-- Who is connected: WebSocketHandler of routes/chat/chat.go.
use uni_pool_new_backend.Base.{
  ℕ, ◌≡◌, ◌⊎◌, refl, sym, ap, inl, inr, ◌||◌, Option, some, String, List, ◌==◌, Bool-cases,
  Option-cases, ==→eq,
}
use uni_pool_new_backend.Model.{User}
use uni_pool_new_backend.Store.{Db, Env}
use uni_pool_new_backend.Text.{is_empty}
use uni_pool_new_backend.Chat.Rooms.{strip_prefix, dm_prefix}
use uni_pool_new_backend.Chat.Access.{get_ride_viewer_role, is_participant, can_access_dm_room}
use uni_pool_new_backend.Chat.Socket.{
  Admission, rejected, admitted, admit_to_ride, admit_to_dm, admit_to_room, admit_user,
  web_socket_handler,
}
use uni_pool_new_backend.Chat.Members.{
  IsMember, IsDmMember, get_ride_viewer_role-IsMember, can_access_dm_room-IsDmMember,
  DmAccess-cases,
}

module _ (uuid_string : ℕ → List ℕ) (uuid_parse : List ℕ → Option ℕ) where
  -- A member of the ride that the room names, or one of the two users of a room of two.
  abbrev pub IsAdmitted : ℕ → List ℕ → Db → Type 0
  IsAdmitted user_id room_id db =
      ((ride_id : ℕ) × (uuid_parse room_id ≡ some ride_id) × IsMember user_id ride_id db)
      ⊎ IsDmMember uuid_string uuid_parse user_id room_id db

  abbrev pub Opens : ℕ → List ℕ → Db → Admission → Type 0
  Opens user_id room_id db out = (out ≡ admitted user_id room_id) × IsAdmitted user_id room_id db

  abbrev pub IsRejected : Admission → Type 0
  IsRejected out = (reason : String) × (out ≡ rejected reason)

  module _ (env : Env) (user_id : ℕ) (room_id : List ℕ) (db : Db) where
    admit_to_ride-cases :
        (ride_id : ℕ)
        → uuid_parse room_id ≡ some ride_id
        → let out = admit_to_ride uuid_string uuid_parse env user_id room_id ride_id db in
          IsRejected out ⊎ Opens user_id room_id db out
    unfolding admit_to_ride
    admit_to_ride-cases ride_id parsed =
        elim (Option-cases (get_ride_viewer_role env user_id ride_id db)) [
          | inl e ↦ rw (e, admit_to_ride) (inl (_, refl))
          | inr (role, e) ↦ elim (Bool-cases (is_participant role)) [
            | inr off ↦ rw (e, admit_to_ride, off) (inl (_, refl))
            | inl on ↦
                rw (e, admit_to_ride, on)
                  (inr (
                    refl,
                    inl (
                      ride_id,
                      parsed,
                      get_ride_viewer_role-IsMember env user_id ride_id db role e on,
                    ),
                  ))
          ]
        ]

    admit_to_dm-cases :
        let out = admit_to_dm uuid_string uuid_parse env user_id room_id db in
        IsRejected out ⊎ Opens user_id room_id db out
    unfolding admit_to_dm
    admit_to_dm-cases =
        elim (DmAccess-cases (can_access_dm_room uuid_string uuid_parse env user_id room_id db)) [
          | inl (inl e) ↦ rw (e, admit_to_dm) (inl (_, refl))
          | inl (inr (inl e)) ↦ rw (e, admit_to_dm) (inl (_, refl))
          | inl (inr (inr e)) ↦ rw (e, admit_to_dm) (inl (_, refl))
          | inr (other, e) ↦
              rw (e, admit_to_dm)
                (inr (
                  refl,
                  inr (
                      can_access_dm_room-IsDmMember uuid_string uuid_parse env user_id other room_id
                        db e),
                ))
        ]

    admit_to_room-cases :
        let out = admit_to_room uuid_string uuid_parse env user_id room_id db in
        IsRejected out ⊎ Opens user_id room_id db out
    unfolding admit_to_room
    admit_to_room-cases = elim (Option-cases (strip_prefix dm_prefix room_id)) [
      | inr (rest, e) ↦ rw (e, admit_to_room) admit_to_dm-cases
      | inl e ↦ elim (Option-cases (uuid_parse room_id)) [
        | inl f ↦ rw (e, admit_to_room, f) (inl (_, refl))
        | inr (ride_id, f) ↦
            let same : admit_to_room uuid_string uuid_parse env user_id room_id db
                ≡ admit_to_ride uuid_string uuid_parse env user_id room_id ride_id db =
              rw (e, admit_to_room, f) refl in
            rw same (admit_to_ride-cases ride_id f)
      ]
    ]

-- Nobody gets a connection to a room but its members, and under their own name only: WebSocketHandler
-- either closes the connection with a reason; or the token is that of a user whose id is the one of the
-- query, the connection is a client for this user and the room of the query, and the user hosts the
-- ride that the room names or has an undeleted accepted booking on it, or is one of the two users of a
-- room of two, of whom one has an undeleted booking on an undeleted ride of the other.
pub web_socket_handler-IsAdmitted :
    (uuid_string : ℕ → List ℕ) (uuid_parse : List ℕ → Option ℕ) (env : Env)
    (auth : List ℕ → Option User) (user_text room_id token : List ℕ) (db : Db)
    → let out = web_socket_handler uuid_string uuid_parse env auth user_text room_id token db in
      IsRejected uuid_string uuid_parse out
      ⊎ ((user : User) × (auth token ≡ some user)
          × (uuid_parse user_text ≡ some user.id)
          × Opens uuid_string uuid_parse user.id room_id db out)
unfolding web_socket_handler admit_user
web_socket_handler-IsAdmitted uuid_string uuid_parse env auth user_text room_id token db =
    elim (Bool-cases (is_empty user_text || is_empty room_id)) [
      | inl e ↦ rw e (inl (_, refl))
      | inr e ↦ elim (Bool-cases (is_empty token)) [
        | inl f ↦ rw (e, f) (inl (_, refl))
        | inr f ↦ elim (Option-cases (uuid_parse user_text)) [
          | inl g ↦ rw (e, f, g) (inl (_, refl))
          | inr (user_uuid, g) ↦ elim (Option-cases (auth token)) [
            | inl h ↦ rw (e, f, g, h) (inl (_, refl))
            | inr (user, h) ↦ elim (Bool-cases (user.id == user_uuid)) [
              | inr off ↦ rw (e, f, g, h, off) (inl (_, refl))
              | inl on ↦
                  let at = ==→eq user.id user_uuid on in
                  rw (e, f, g, h, on)
                    (elim (admit_to_room-cases uuid_string uuid_parse env user.id room_id db) [
                      | inl closed ↦ inl closed
                      | inr opened ↦ inr (user, refl, ap some (sym at), opened)
                    ])
            ]
          ]
        ]
      ]
    ]
