-- ===== src/Lib.antt =====
-- The core logic of GoBNC, an IRC bouncer that keeps its uplink sockets in one process, the keeper,
-- and everything else in another, the brain, which serves many clients over one uplink.
--
-- A line from the network is parsed by the message codec, kept in the keeper's ring under a number,
-- and replayed to a brain that attaches by the number it has seen last. What the brain has derived
-- about a network is kept in the keeper's blob store. A line to the network passes the pacer. The
-- registration of an uplink, from CAP LS to the end of the MOTD, is a state machine that the brain
-- feeds with parsed lines. The answer to a client's enquiry finds its way back through the request
-- tracker. What a line says of users and channels changes the session's state. A network whose
-- socket has died is redialled with backoff.
--
-- The files, and the code that each is about:
--   Base            the shared names, lists over native numbers, Go strings as lists of bytes, Go
--                   maps as association lists.
--   Irc/Message     internal/irc/message.go. Message is the struct; parse and its parts are Parse
--                   and parseTags; Encode holds Encode, Wire and formatTagPrefix; RoundTrip, Wire,
--                   Total, Escape and Sorting are proofs. Access holds Nick, Param, Trailing and
--                   HasRawCRLF of internal/irc/limits.go, LineBreaks is about the latter.
--   Irc/Modes       internal/irc/modes.go: CHANMODES and PREFIX, ParseModeParams, Apply, ModeString
--                   and the user modes.
--   Irc/Isupport    internal/irc/isupport.go: Parse005, Tokens, CloneRaw and RPL005. RoundTrip and
--                   Lines are proofs.
--   Irc/Ircd        internal/irc/ircd.go: DetectIRCd.
--   Irc/CaseMap     internal/irc/casemap.go: Fold, Canonical and Equal.
--   Keeper/Ring     internal/keeper/ring.go: push, since, lastSeq and snapshot. Window shows the
--                   ring as a list, Since is about catching up.
--   Keeper/Blob     internal/keeper/blob.go: Push, Snapshot and Clear. Dictionary and Snapshot show
--                   it as an ordered dictionary.
--   Flood/LinePacer internal/flood/line.go: Configure, Cost, and one round of the loop of Take.
--                   Ircu compares the pacer with the server's own rule.
--   Brain/Reconnect internal/brain/reconnect.go: StopNetwork, armReconnect with the function its
--                   timer runs, resetBackoff and clearStopped, for one network. Backoff and
--                   Stopping are proofs.
--   Caps            internal/caps/caps.go. Changes is about CAP NEW and CAP DEL.
--   Registration    internal/registration. State holds State, New, Start, Action and Input; Nick
--                   the ladder of nick.go; Sasl the exchange of sasl.go; Step is Step of
--                   registration.go, and Post StepPost of sasl.go; Base64 is Go's base64. Validity,
--                   Announce, Replay, Offers, Required, Sasl/Chunks, Base64/RoundTrip,
--                   Post/Registered and the children of Nick are proofs. The SCRAM client of
--                   github.com/xdg-go/scram is a parameter of the operations that call it; the
--                   nonce that it draws for a conversation comes with the input.
--   Session/Tracker internal/session/tracker.go. Codes holds the tables of numerics, with those of
--                   internal/irc/ircd.go; Queues the operations on the requests under one key;
--                   Lifecycle is expireLocked, DropClient, TakeReady and SetWHOXClientFix; Begin is
--                   Begin; Route is routeLocked; Enquiry reads a client's parameters. Requests,
--                   InFlight, AllInFlight, Invariant, RouteKeeps, Runs, Drain and
--                   Tokens are proofs.
--   Session/State   internal/session: User and ChannelState, and the fields of Session that a line
--                   of the network changes. Users is user.go, Commands state_commands.go, Numerics
--                   state_numerics.go, Apply is applyState of state.go. Consistent, Panics
--                   and Prefix are proofs.
--   Tests           concrete inputs.
--
-- Conventions. A byte is a number, and a string is the list of its bytes. A time and a duration are
-- numbers of nanoseconds; a pointer to a user is an index into a heap; a clock and a sleep are
-- inputs. A nil map and an empty map are the same list. Where Go leaves the order of a map open, a
-- loop goes through the list in its order. uint64 counters and the int64 backoff wrap at 2 ^ 64. A
-- mutex is left out: what it guards is one step.
--
-- Fuel. The loop of Parse over the parameters has the length of the text as fuel, and each round
-- takes at least one byte away; running out would be an error value of its own. The digits of a
-- number n have n as fuel, and each round divides what is left. The loop of sendAuthenticate has
-- the length of the text as fuel, and each round but the last one takes 400 bytes; Registration's
-- Sasl/Chunks shows that nothing of the text is lost.
--
-- Not modelled: the text of Go's errors; strings.ToLower, strings.TrimSpace and strings.EqualFold
-- beyond ASCII; sockets, the database, configuration, logging and the commands of cmd/; and the
-- parts of internal/session, internal/brain and internal/keeper that are not named above.
pub mod Base
pub mod Irc
pub mod Keeper
pub mod Flood
pub mod Brain
pub mod Caps
pub mod Registration
pub mod Session
pub mod Tests
