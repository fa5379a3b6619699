-- ===== src/Lib.antt =====
-- miniDHT: a model of a distributed hash table in the manner of Kademlia.
--
-- A node keeps a list of contacts, runs searches for the nodes that are nearest to a key, stores
-- data for others, and answers messages. Sources/miniDHT.cpp puts the parts together: a message
-- that arrives makes its sender a contact, is dispatched on its type, and is answered from the
-- contact list or from the store; a search sends messages to the contacts of its short list and
-- goes on when they answer.
--
-- Base      lists, texts and maps over the native numbers, which the parts share.
-- Key       Sources/miniDHT_const.h and .cpp: Key.Bits is `std::bitset<KEY_SIZE>` as the list of
--           its bits from the highest index down; Key.Digest is `digest_t`, its text and the
--           conversions to keys; Key.Local is the digest of a file and the key of a node.
-- Contact   Sources/miniDHT_proto.proto and Sources/miniDHT_const.cpp: the records of messages and
--           end points, and the text of an address.
-- Bucket    Sources/miniDHT_bucket.cpp: `bucket`, a multimap that is the list of its entries.
-- Search    Sources/miniDHT_search.cpp: `search`, and the loops that call its getters.
-- Db        Sources/miniDHT_db.cpp: Db.KeyValue is `db_key_value`, Db.MultiKey is
--           `db_multi_key_data`, tables as lists of rows and SQL statements as functions on them;
--           Db.View is the map that the second one stands for, and Db.View.Contents the stores
--           up to what they hold. Db.Handle is what the methods do around the statements: the
--           mutex, the answers of SQLite and the errors, with Db.Handle.KeyValue and
--           Db.Handle.MultiKey for the methods of the two classes. Node uses the statements alone.
-- Node      Sources/miniDHT.cpp: Node.State is the members of the class `miniDHT`, Node.Send the
--           messages, Node.Store `insert_db`, Node.Iterate the iterative searches, Node.Handle
--           the handlers and Node.Periodic the method `periodic`, which Node.Thread cuts into
--           the segments of its thread. Node.Public is the constructor and the public methods.
--           Node.Wire is `send_MESSAGE` from the packet on, and a packet that is received.
--           Node.Sound has the invariant, Node.Run the runs of all of these, Node.Network several
--           nodes with the messages between them, and Node.Acknowledged an exchange of two.
--           Every function is named after the method it models.
-- Session   Sources/miniDHT_session.h: Session.Message is `basic_message`, Session.State the class
--           `session` with one function for each method; Session.Steps says in which order the
--           network library may call them. Session.Framing and Session.Exchange read a stream of
--           bytes with them, and Session.Transport is how Sources/miniDHT.cpp makes and finds
--           sessions.
-- Tests     runs at concrete inputs.
--
-- A node's method takes the state and returns the next one, or a fault: an exception, behaviour
-- that C++ leaves undefined, or a loop that has used up its fuel. Messages sent are added to a
-- list, and so are calls of the user's callbacks. The lock `giant_lock_` makes handlers run one at
-- a time, so each is one step; it reads the clock once. `periodic` releases the lock between its
-- parts and between the records of the last one: it is a list of segments, each one step, and any
-- handler may run between two of them. Points in time are numbers of microseconds. Times and ttls
-- have 64 bits in the source; a ttl of 2^63 or more is negative in `is_over`, and otherwise the
-- model has no limit for them, where the source computes with the microseconds of the library.
--
-- A message in the list of a node is at the point of `send_MESSAGE` where the end point is resolved.
-- What follows does not touch the node: `post` of Node.Wire makes the packet, which overruns the
-- buffer if the message is too long, and finds the session, which may be gone. The state of a node
-- after that is not followed: what is said of a node holds as long as no such packet is made.
--
-- `add_contact` reads the time of a contact and moves on in one expression, whose order C++ leaves
-- open before C++17 and which from C++17 on reads the entry behind the contact. Both are modelled;
-- what a read at `end()` gives, which is undefined, is a number that is a parameter.
--
-- Fuel: `remove_contact` and `periodic` get one unit for each contact, since every one used erases
-- a contact; the eviction of `insert_db` gets one for each record, and the loop of a store one for
-- each contact of the short list. `read_packets`, `receive` and `writes` get the number of packets.
-- `digest_file` gets one for each byte and one more, and `local_key` gets two, as it calls itself
-- once at most where the file can be written.
--
-- A session's methods hold its lock, so each is one step; the callback of a message is called
-- without it, and if that throws, the handler ends with the exception and the run with it. The
-- operations that were begun on the socket are counted in the state, and a step calls the handler
-- of one of them.
--
-- Parameters: SHA-256, the name of the host and the texts of its clock, what new memory holds, the
-- random numbers, the resolver of host names, the serialized form of messages, the row that the
-- database puts first by ORDER BY, whether SQLite is thread-safe and which of its calls fail, the
-- order of the operands in `add_contact` with what is read at `end()`, and the end point of the
-- socket `socket_`, which nothing opens.
--
-- Not modelled: sockets; how protobuf serializes a message; the quoting of the texts that are
-- pasted into SQL; the `assert`s, which a release build leaves out; threads that wait for
-- `giant_lock_`, and the second time that it is released after an exception; the programs under
-- Tests.
pub mod Base
pub mod Key
pub mod Contact
pub mod Bucket
pub mod Search
pub mod Db
pub mod Node
pub mod Session
pub mod Tests
