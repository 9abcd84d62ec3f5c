-- ===== src/Lib.antt =====
-- The signaling daemon of the metering NSLP. Nodes on the path of a flow agree on what each of
-- them meters: an initiator (NI) sends a CONFIGURE towards the destination, forwarders (NF) pass
-- it on, and a responder (NR) answers it; REFRESH messages keep the sessions alive. A dispatcher
-- takes events from a queue, finds or creates the session of each, and lets it process the event.
-- A session sends messages, starts timers and has an installer put its rule into force.
--
-- What models what, with the files of the repository:
--   Msg/Serial       src/msg/ntlp_msg.cpp (is_greater_than), src/session.cpp
--                    (next_msg_sequence_number)
--   Msg/Object, Msg/ObjectType, Msg/Code
--                    include/msg/mnslp_object.h and the classes of objects, information_code.h
--   Msg/Store        src/msg/ie_store.cpp with the order of include/msg/ie_object_key.h
--   Msg/Message      src/msg/mnslp_msg.cpp, mnslp_configure.cpp, mnslp_refresh.cpp and
--                    mnslp_response.cpp: getters, setters and checks
--   Msg/Ntlp         src/msg/ntlp_msg.cpp: copies and responses
--   Rule, Rule/Nop   src/policy_rule.cpp, src/nop_policy_rule_installer.cpp
--   Event            include/events.h: the events and the predicates on them
--   Node, Node/Monad src/dispatcher.cpp: the services that sessions call
--   Session          src/session.cpp: the checks of requests, and the loop that places objects
--   Session/Ni       src/ni_session.cpp: data and messages; Ni/Machine has the handlers
--   Session/Nf       src/nf_session.cpp: data and messages; Nf/Machine has the handlers of CLOSE
--                    and PENDING, Nf/Refreshing that of METERING and the dispatch
--   Session/Nr       src/nr_session.cpp: data and the handler of CLOSE; Nr/Machine has METERING
--   Manager          src/session_manager.cpp: the session table
--   Dispatcher       src/dispatcher.cpp: process and create_session
--   Wire/Object      src/msg/mnslp_object.cpp and its subclasses: the coding of objects
--   Wire/Message     src/msg/mnslp_msg.cpp and its subclasses, mnslp_ie.cpp: serialize and
--                    deserialize; src/gistka_mapper.cpp: what becomes of a received payload
--   Wire/Ipfix       src/msg/mnslp_ipfix_message.cpp: get_message, and the import of a body
--   Ipfix/Field      src/msg/mnslp_ipfix_field.cpp: keys of fields and the coding of values
--   Ipfix/Template   src/msg/mnslp_ipfix_template.cpp: templates and their container
--   Ipfix/Import     src/msg/mnslp_ipfix_message.cpp: the reading of template records
--   Ipfix/Record     src/msg/mnslp_ipfix_data_record.cpp, and the reading of data records in
--                    src/msg/mnslp_ipfix_message.cpp
--   Ipfix/Table      src/msg/mnslp_ipfix_field.cpp: the tables of field types
--   Ipfix/Header     src/msg/ipfix_t.cpp: the header of a message and its buffer
--   Ipfix/Print      src/msg/mnslp_ipfix_field.cpp: the printing of values (the ipfix_snprint
--                    functions)
--   Ipfix/Message    src/msg/mnslp_ipfix_message.cpp: making, comparing and reading messages
--   Ipfix/Read       src/msg/mnslp_ipfix_message.cpp: mnslp_ipfix_import and the header
--   Ipfix/Write      src/msg/mnslp_ipfix_message.cpp: _write_hdr and _write_template
--   Netmate/Field    src/policy_field_mapping.cpp
--   Netmate/Application
--                    src/policy_application_configuration_container.cpp
--   Netmate/Action   src/policy_action.cpp, policy_action_container.cpp, policy_action_mapping.cpp,
--                    netmate_ipfix_metering_config.cpp
--   Netmate/Meter, Netmate/Commands, Netmate/Installer
--                    src/netmate_ipfix_policy_rule_installer.cpp: execute_command; the commands
--                    that are made of a message; check, install and remove
-- The other modules below these hold proofs and are named for what they prove. Map is the
-- std::map of the program, Prelude has shared names.
--
-- How the program is modelled:
--   * A handler is a function on a context: the session and the world, which counts the timers,
--     keys and ids that were made and keeps a log of what was done, newest first. It returns,
--     throws, or stops the program by a failed assertion, a null pointer or a missing return
--     (Outcome). What was changed before an exception stays changed.
--   * A parser returns an object, NULL with its errors, or lets an exception through (Parse).
--     Where a function that has to return a value reaches its end, writing is `undefined`; the
--     sessions take such a message as sent, since only a count of bytes is lost.
--   * A long handler is cut at its branches into functions, in the order of the source. A handler
--     that tests an event for its class matches on the event.
--   * `uint32` is a number below 2^32, and arithmetic on it is reduced by `u32`.
--   * A timer is the id of the message that it waits for, 0 if it is stopped.
--   * A message is a value, so `copy` and `delete` disappear; what a copy changes is written out.
--   * A method that holds a mutex throughout is one step. One event is processed at a time.
--   * A buffer is the list of the bytes that are left in it. What `serialize` writes is a list of
--     bytes. The coding is always protocol_v1.
--
-- What is a parameter: routing information and addresses of the NTLP library and the metering
-- specifications with their comparison (Platform), and the installer, authorization, random
-- numbers, ids and configuration (Node). The order of keys and ids is that of their numbers.
-- The buffers of protlib are a record with laws (NetMsg, IsNetMsg), and the coding of a metering
-- specification is a record (Codec), so that messages do not depend on IPFIX; Wire/Ipfix fills it
-- with the program's own export and import, which may not end or not return what was written.
-- The answers of libcurl to the installer are a function of the requests so far (Meter), and
-- the text that the C library makes of a floating point number is one of its bytes (FloatText). The installer of Node
-- is any installer; netmate_installer of Netmate/Installer is the one that talks to a meter.
--
-- Bounds and fuel: the parser of a message takes as many rounds as the payload has bytes, and
-- the reading of a data set is run on any fuel. The import of an IPFIX message has one fuel for the
-- rounds of all of its loops; as much as the message has bytes is enough for all but the reading of
-- data sets, which may not end. The search for an unused session id makes at most one draw more than
-- the table has sessions; if these ids differ that is enough, and if all of them are in use, where the
-- source draws on, the dispatcher of the model creates no session. A CONFIGURE holds so many specifications
-- that their keys stay below 2^32.
--
-- Not modelled: the export of data sets in IPFIX messages (output, output_set, finish_cs), the
-- encoding of floating point values, a buffer too small for `serialize`, the mapping of the other
-- messages of the NTLP library to events, the reading of the containers of the installer from XML,
-- the mappings for objects of other formats than IPFIX, the setters of notify and options messages,
-- threads and process start, logging, and the benchmark journal.
pub mod Prelude
pub mod Platform
pub mod Map
pub mod Msg
pub mod Rule
pub mod Event
pub mod Node
pub mod Session
pub mod Manager
pub mod Dispatcher
pub mod Wire
pub mod Ipfix
pub mod Netmate
mod Tests
