-- ===== src/Lib.antt =====
-- mega-irc: an IRC client for the MEGA65.
--
-- Bytes come from the connection, are assembled into lines (`on_bytes`), and each line is cut into a
-- message (`irc_parse`, `irc_ctcp`) that the client composes into text for a view or an answer for
-- the wire (`compose`, `fold`, `send3`), through bounded writers (`ui_cat`, `ui_cat_num`). A view's rows
-- are kept in a ring of far memory (`log_row`) and drawn from it (`log_draw`); the views themselves
-- are slots that the function keys show in an order of their own (`view_open`, `view_close`). What a
-- message or a typed line does is a step of the session (`handle_line`, `typed_line`): text into a
-- view, lines to the wire, a view opened or closed, the nick and the ignore list. What is typed is
-- edited in a buffer of its own, with the lines before it (`press`, `enter`), and servers are kept as
-- bookmarks (`marks_add`, `marks_get`). Where the connection is TLS, the server's certificates are walked (`der_elem`, `chain_split`), and their host name and dates
-- are checked (`chain_policy`) against what was dialled and what the clock says (`clock_format`), and then
-- each signature under the next one's key, up to a carried anchor (`chain_verify`, `rsa_pkcs1_sha256_verify`);
-- the memory bank that holds the certificates runs both checks (`ck_api_chain`). All of it goes over one
-- connection, plain or TLS, that is opened, pumped and closed (`conn_open`, `conn_pump`, `conn_send`).
--
-- Files and sources:
--   Common   shared names: Boolean tests, lists over the native numbers, digits, letter case
--   Irc      src/irc.c; Words and Total for its loops, Sound, Command, Ctcp, Written and RoundTrip
--   Ui       src/ui.c, the writers, the padded row and ui_read_line; Cat, Decimal, Row, Prompt
--   Client   src/ircc.c, what is composed; Compose, Fold
--   Stream   src/ircc.c, on_bytes; Lines
--   Sasl     src/ircc.c, base64 and the SASL answer; Textbook, Answer
--   Clock    src/clock.c; Plausible, Format
--   Der      src/tls/der.c; Exact, Bounds, Split, Oid, and Sample with certificates for the tests
--   Pkcs1    src/crypto/pkcs1.c; Numbers, Padding, Textbook, Sample
--   Policy   src/tls/policy.c; Time and Dates, Names, Walk, Extensions and Hosts, Verdict
--   Chain    src/tls/chain.c, src/tls/roots.c; Hash, Parts, Signed, Roots, Verdict, Trust,
--            Sample
--   Bank     src/bank/api.c, src/bank/chain_api.c, the store of certificates; Store, Reader, Check
--   Log      src/m65/log.c; Slots, Ring
--   Screen   src/platform/m65_screen.c, the screen codes
--   View     src/m65/view.c; Use, Init, Order, Close for the keys, Wrap for rows, Scroll, Shape
--   Session  src/ircc.c, the state and what both directions use of it; Monad, Keeps, Sound, and
--            Sample with a session for the tests
--   Talk     src/m65/cmd.c, cmd_said with CTCP and the ignore test, cmd_routed; Sound
--   Server   src/ircc.c, handle_line; Sound, Ping, Nick, and Wire for the lines of on_bytes
--   Ignore   src/m65/cmd.c, ignore_cmd; Names, Sound
--   Typed    src/ircc.c, privmsg, join, join_all, and src/m65/cmd.c, the words; Words, Sound
--   Slash    src/m65/cmd.c, the commands' tables and gathering, and in Run cmd_line and src/ircc.c,
--            typed_line; Lookup, Errors, Sound
--   Input    src/ircc.c, the line that is typed, its history, its row, the clock of digits,
--            the row of counts, read_secret; Buffer, Edit, History, Clocked, Cursor, Counts, Secret
--   Marks    src/m65/marks.c; Lines, Entries, Add, Total
--   Conn     src/m65/conn.c; Net and Run for the network and the operations, Push, Plain, Pump,
--            Ways, Opened, Waits
-- A message or a typed line runs as a function on the session's state (`M`), whose `none` means that
-- the code never comes back; each branch of `handle_line` and each command is a function of its own.
-- Whether the connection takes a line is a function of how many were handed to it before.
-- Definitions carry the names of the functions they translate. A C string is the list of its bytes
-- before the NUL, a pointer that may be null is an option, a buffer that is written is the list of
-- what was written and its room, and bytes and words keep their wrap-around (`% 2 ^ 8`, `% 2 ^ 16`).
-- A loop that ends at a test in its middle runs on fuel and yields `none` if that runs out:
-- the parameter loop of `irc_parse` gets one more than the bytes left, and the two walks of
-- `chain_host_matches` one more than the end of their range, which is enough because each round moves
-- on; the rows of a wrapped line get one more than its bytes, and so do `join_all` for its list, the hash of a TBSCertificate for its bytes, and
-- the count of a bookmark file's lines for its text. The
-- loop over a nick gets 257 rounds, one for each value of its byte and one more. A subtracting loop of
-- `ui_cat_num` has fuel 9, since a digit is at most 9. The walk over a certificate is characterised for ranges of at most 65531 bytes, where no 16-bit offset wraps.
--
-- Not modelled: of src/ircc.c the start-up, and the connection loop with its timers and the keys that
-- choose and scroll views; the painting of the views, the TLS client and its kits, and all device access: keys, screen, disk, memory banks. The
-- real-time clock's library is not in the repository: `clock_read` takes what it reads as an
-- argument. What the disk answers while bookmarks are written is an argument as well.
-- The network (src/netutil.c, a copy from another project) is the endless sequence of what its polls
-- find (`Tick`, `World`): what can be read, how much may be sent, whether the peer is there, the frames
-- that passed, the key. The TLS client (src/tls/tls.c and its kits), a copy as well, is a record of
-- operations (`Engine`). The loops of src/m65/conn.c are followed for a number of polls that the world
-- holds (`left`): they get as many rounds as bytes and those polls, and a loop that has not come back by
-- then yields `none`. That they come back is stated under the condition that the link goes down
-- within those polls (`Ends`); how long a wait lasts on a link that stays up is stated in Conn/Waits.
-- The cryptography and src/tls/x509.c are copies from another project: what the chain check uses of
-- them (`Mp`, `Kit`) is a record of operations, with what their headers document as a record of laws
-- (`MpLaws`, `ShaLaws`), and the tests fill both with plain numbers and a hash that counts bytes.
pub mod Common
pub mod Irc
pub mod Ui
pub mod Client
pub mod Stream
pub mod Sasl
pub mod Clock
pub mod Der
pub mod Pkcs1
pub mod Policy
pub mod Chain
pub mod Bank
pub mod Log
pub mod Screen
pub mod View
pub mod Session
pub mod Talk
pub mod Server
pub mod Ignore
pub mod Typed
pub mod Slash
pub mod Input
pub mod Marks
pub mod Conn
