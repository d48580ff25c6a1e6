-- ===== src/Wire/Message/Transmit.antt =====
-- A message from the arguments of its sender to those of its receiver.
use zwwm.Common.{
  ℕ, ◌+◌, ◌≡◌, refl, sym, arith, true, some, List, [], ◌∷◌, length, map, ok, length-append,
  append-nil,
}
use zwwm.Wire.Parser
use zwwm.Wire.Parser.{MessageParser, Outcome, at_end}
use zwwm.Wire.Args.{Arg, AllFit, type_of, encode, encode_all, fds_of, fds_in}
use zwwm.Wire.Args.Read.{read_args}
use zwwm.Wire.Args.RoundTrip.{past, past_all, read_args_lem}
use zwwm.Wire.Connection.{Connection, Message, queue, next_message, consume, is_alive}
use zwwm.Wire.Connection.Loopback.{Link}
use zwwm.Wire.Connection.Stream.{input, pending_fds, IsValid}

past_all_lem :
    (args : List Arg) (p : MessageParser)
    → ((past_all args p).pos ≡ p.pos + length (encode_all args))
      × ((past_all args p).fd_pos ≡ p.fd_pos + length (fds_of args))
      × ((past_all args p).body ≡ p.body)
past_all_lem [] p = (omega arith, omega arith, refl)
past_all_lem (a ∷ rest) p =
    let (at, fd, same) = past_all_lem rest (past a p) in
    (
      omega (arith, at, length-append (encode a) (encode_all rest)),
      omega (arith, fd, length-append (fds_in a) (fds_of rest)),
      same,
    )

-- A parser over the body of a message reads its arguments, and then stands at its end.
pub parse_body :
    (args : List Arg)
    → AllFit args
    → (q : MessageParser) × (read_args
          (map type_of args)
          (Parser.make (encode_all args) (fds_of args))
        ≡ Outcome.ok args q)
      × (at_end q ≡ true)
      × (q.fd_pos ≡ length (fds_of args))
unfolding Parser.make at_end
parse_body args f =
    let start : MessageParser = Parser.make (encode_all args) (fds_of args) in
    let (at, fd, same) = past_all_lem args start in
    (
      past_all args start,
      read_args_lem args start [] [] f refl (omega arith) (sym (append-nil _)) (sym (append-nil _)),
      ground (arith, at, same),
      omega (arith, fd),
    )

-- A link on which a message can travel at once: alive, nothing queued, nothing waiting.
pub record IsIdle (l : Link) : Type 0 where
  pub alive : is_alive l.near.link_alive ≡ true
  pub peer : l.near.has_peer ≡ true
  pub no_output : l.near.output_chunks ≡ []
  pub no_output_fds : l.near.output_fds ≡ []
  pub valid : IsValid l.far
  pub no_input : input l.far ≡ []
  pub no_input_fds : pending_fds l.far ≡ []

abbrev pub queued : List ℕ → List ℕ → Link → Link
queued bytes fds l = record l { near = queue bytes fds l.near }

-- What a receiver that knows the types of the arguments gets: the object, the opcode and the
-- arguments, with nothing left in the body, in the stream or among the descriptors.
pub record Arrives (object_id opcode : ℕ) (args : List Arg) (c : Connection) : Type 0 where
  pub message : Message
  pub parser : MessageParser
  pub delivered : next_message c ≡ (some message, c)
  pub object : message.object_id ≡ object_id
  pub operation : message.opcode ≡ opcode
  pub arguments :
      read_args (map type_of args) (Parser.make message.body message.fds) ≡ Outcome.ok args parser
  pub body_ends : at_end parser ≡ true
  pub no_input : input (consume message.size parser.fd_pos c) ≡ []
  pub no_fds : pending_fds (consume message.size parser.fd_pos c) ≡ []
