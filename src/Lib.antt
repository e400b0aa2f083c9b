-- ===== src/Lib.antt =====
-- UniPool's backend is a Go web server for ride pooling. A host offers a ride; passengers request
-- seats; the host accepts or rejects them; whoever changes their mind withdraws. After the trip the
-- passenger says how it ended, and the host confirms the payment. Each request is one handler, which
-- reads and writes a relational database through an ORM (GORM) and raw SQL, and starts pushes, emails
-- and chat messages. The handlers meet in the tables; the chat's throttle of pushes and the hub of its
-- websocket connections have a state of their own.
--
-- The development models the handlers that carry the seat contract of helpers/seats.go: total_seats
-- includes the host, booked_seats counts the accepted passengers, and is at most total_seats - 1;
-- and, beside it, the verification of institute addresses, the ratings after a trip, and the hub.
--
-- Which file models what:
--   Base, Base/*      shared names; Boolean tests; a table as a list of rows, with the
--                     first row that fits, the number of rows that fit, an update and a deletion, and
--                     how these move counts, unique keys and lookups
--   Text              the functions of Go's strings that the handlers use
--   Model             models/*.go: the rows, with the columns that the handlers read or write
--   Store             the database, what a request draws from outside, and what a handler returns
--   Nested            the rows that a body nests in its own (associations of models/BookingModel.go and
--                     models/RideModel.go), and how the ORM's Create saves them
--   Seats             helpers/seats.go
--   Booking/Load, Request, Accept, Reject, Delete, Removal
--                     routes/bookings/Request.go, Accept.go, Reject.go and deleteBooking.go
--   Booking/Participants   routes/rides/participants.go (RemoveRideParticipant)
--   Booking/Crud      routes/CRUD/BookingCRUDRoutes.go (CreateBooking, UpdateBooking, DeleteBooking;
--                     the server does not wire this DeleteBooking)
--   TripCard          routes/bookings/TripCard.go (BuildActiveTripCard, DismissTripCard, PaymentAck)
--   Account           routes/users/DeleteUser.go
--   Rides             routes/rides/createRide.go and viewerState.go, helpers/canonical_locations.go, and
--                     UpdateRideByID and DeleteRideByID of routes/CRUD/RideCRUDRoutes.go
--   Chat              of routes/chat/chat.go: the push throttle; the names of two users' rooms, who may use
--                     a room, posts, pages of messages, read cursors and the admission of connections
--   Verify            routes/users/EmailVerification.go, models/EmailVerificationModel.go, and
--                     resolveInstituteFromEmail of routes/users/CreateorUpdateUser.go
--   Ratings           routes/rides/ratings.go, models/RatingModel.go
--   Hub               initializer/websocket.go, and handleTypingIndicator and handleMessageStatus of
--                     initializer/websocket_client.go
--   Ledger            what the tables rides and bookings owe each other
--   Booking/Live, Booking/History   histories of calls
--   Examples          a small database, tests on it, and the theorems applied to it
--
-- How code becomes a definition. A handler is a function from the environment of the request (`Env`),
-- the value under c.Locals("user"), the parsed path and body (`none` where the parser refuses them) and
-- the database, to an `Outcome`: the database, the status and the text of the reply, and the notices
-- that it starts. It is cut at its reads: `accept_route` finds the row, `decide_accept` checks it,
-- `commit_accept` writes. A guard is a test with an early return (`refuse`), in the order of the source.
-- A transaction commits its writes at once or not at all, and an update whose RowsAffected the code
-- looks at is a count of the rows that fit. Handlers without a transaction write once, but for
-- the stamp of the push that an update of a ride starts.
--
-- What is left to the outside is a field of `Env`: the time, how long after it the ORM stamps a new
-- row, the ids that BeforeCreate draws, for a row and for those that its body nests, whether there
-- is a push service, which statements fail, and whether the ORM's Delete removes a row or stamps its
-- deleted_at (`soft_delete`). DeletedAt is a plain *time.Time in models/BaseModel.go, for which GORM
-- removes rows; the model leaves it open. Foreign keys that cascade, and the unique index on a ride
-- and a passenger, come from migsource/migrations/00001_init.sql.
--
-- The two routes of the verification, and those of the ratings, have tables of their own beside the
-- shared ones. The hash of a code is a parameter, and so is which comments the database takes. In the hub
-- a section under the lock is one step, a channel is the list of what it holds and a flag, and a panic
-- is `none`.
--
-- Representation: a uuid is a number, and 0 is uuid.Nil; an instant is a number of nanoseconds; uint
-- columns are natural numbers, and a decrement stands under its test that the column is positive, as in
-- the code. A string is compared as its code points. A status is one of the words that the program
-- writes, or another text. The order in which a query without ORDER BY returns rows, and ties in one
-- with it, follow the list of the table. Every loop is a recursion on a list, so that no fuel is needed.
--
-- Not modelled: the search and its scoring (floating point), external rides, ride settings, the list
-- of chats, the recipients of the chat's pushes, the profile routes, the list of institutes,
-- notifications and reports, the reading and writing of connections, the authentication middleware,
-- the email and push senders, the migrations and the wiring of the server.
-- Handlers that only project rows to JSON are left out, and so are the texts of notices and logs.
mod Base
pub mod Text
pub mod Model
pub mod Store
pub mod Nested
pub mod Seats
pub mod Booking
pub mod Ledger
pub mod TripCard
pub mod Account
pub mod Rides
pub mod Chat
pub mod Verify
pub mod Ratings
pub mod Hub
mod Examples
