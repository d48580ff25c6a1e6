-- ===== src/Wire/Args/Read.antt =====
-- Reading arguments by the methods of MessageParser, one after the other.
use zwwm.Common.{List, [], ◌∷◌, if◌then◌else◌}
use zwwm.Wire.Signature.{ArgType}
use zwwm.Wire.Parser.{
  Reader, ◌>>=◌, read_int, read_uint, read_object, read_new_id, is_null_string, read_string,
  read_array, read_fd, pure,
}
use zwwm.Wire.Args.{Arg}

-- `p.is_null_string() ? ((void)p.read_string(), nullopt) : p.read_string()`.
unfoldable pub read_nullable : Reader Arg
read_nullable = do
  null ← is_null_string
  text ← read_string
  pure (if null then Arg.null_string else Arg.string text)

unfoldable pub read_arg : ArgType → Reader Arg
read_arg ArgType.int32 = do z ← read_int; pure (Arg.int z)
read_arg ArgType.fixed = do z ← read_int; pure (Arg.fixed z)
read_arg ArgType.uint32 = do n ← read_uint; pure (Arg.uint n)
read_arg ArgType.object = do n ← read_object; pure (Arg.object n)
read_arg ArgType.new_id = do n ← read_new_id; pure (Arg.new_id n)
read_arg ArgType.string = read_nullable
read_arg ArgType.array = do a ← read_array; pure (Arg.array a)
read_arg ArgType.fd = do n ← read_fd; pure (Arg.fd n)

unfoldable pub read_args : List ArgType → Reader (List Arg)
read_args [] = pure []
read_args (t ∷ rest) = do a ← read_arg t; others ← read_args rest; pure (a ∷ others)
