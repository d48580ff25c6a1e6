-- ===== src/Lib.antt =====
-- zwwm is a Wayland compositor with libraries of its own. This development models the parts that
-- decide without a device: the Wayland wire format, the dispatch of requests, where windows go, and
-- the language of its configuration.
--
-- Wire (zwayland/wire): messages between a client and the compositor.
--   Wire.Bytes: little-endian words over lists of bytes.
--   Wire.Signature: parse_signature of src/message.cpp, from characters to ArgSpecs.
--   Wire.Builder: MessageBuilder; a method takes the builder and returns it, or throws.
--   Wire.Parser: MessageParser; a method takes the parser and returns it with its value, or throws.
--   Wire.Args: arguments as values, appended and read by type.
--   Wire.Connection: Connection of src/connection.cpp; its deques are lists, and each chunk of input
--     or output keeps its offset. Wire.Connection.Socket has the loops over recvmsg and sendmsg, whose
--     answers are a list that the caller gives; Wire.Connection.Loopback has the link of two
--     connections in one process.
--   Wire.Message: a message built, queued, flushed and received.
-- Server (zwayland/server): the requests of a client.
--   Server: Client of src/display.cpp: its objects, ids, errors, and the loop of dispatch_available over
--     the messages of a Wire connection. The handlers, the flush of the transport and the texts of
--     errors are parameters; an exception of a handler is a value that it leaves.
--   Server.Destroy: destroy_resource and destroy; what listeners do is a parameter, with whether it
--     leaves the iterator valid with which the resource is erased.
--   Server.Globals: the globals of Display, the events that registries get, and the handler of
--     wl_registry; the visibility filter and the texts of its errors are parameters.
-- Layout (zwwm/src/layout): the rectangles of the windows of a tag.
--   Layout.Fibonacci: focus_fibonacci.cpp; a tree of splits as the path of each leaf.
--   Layout.MasterStack: master_stack.cpp; two columns of tiles. The arithmetic on float and double is
--     the parameter Floats.
-- Config (zw-lang): the language of the configuration file.
--   Config: the values, diagnostics and results of include/zwwm/lang/config.hpp.
--   Config.Parser: Parser of src/config.cpp; the input is the list of characters not yet taken, with
--     the location and the diagnostics so far. The methods that call each other have fuel. The
--     overflow of an integer literal, which is undefined, is an outcome of its own.
--   Config.Environment, Config.Imports: parse_config_file with the files that it imports; the file
--     system and the environment are the record Files.
--   Config.Checks, Config.Settings, Config.Animations, Config.Validate: validate_config, a function
--     for each check it makes, then one for each setting, then the loop over the assignments.
-- Common: numbers, lists and integers that both parts share. The Tests modules run the definitions.
--
-- A byte is a number below 256, a descriptor a number, and a closed descriptor an entry of a list
-- of closed ones. dup, recvmsg, sendmsg and the room of a control message are parameters. The loop
-- that collapses the Fibonacci tree has as much fuel as its paths have bits. The loop of sends has
-- one round for each byte of output. The dispatch loop has one round for each byte of input and one
-- more. Parser::parse has one round for each character of the input and one more; an assignment has
-- three calls deep for each character that is left, and three more. parse_config_file takes fuel,
-- one more than there are files. Coordinates and the gaps of the
-- Fibonacci layout are integers, narrowed to 32 bits where the code narrows them.
--
-- Not modelled: fixed-point numbers over double, the signals and sockets of the server, the client's
-- display, the event loop, the terminal, and all code that only calls a device, OpenGL, D-Bus or X.
-- Behaviour that C++ leaves undefined is an outcome of its own where a theorem meets it.
pub mod Common
pub mod Wire
pub mod Layout
pub mod Server
pub mod Config
