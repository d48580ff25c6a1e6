-- ===== src/Wire/Error.antt =====
-- What message.cpp throws: one constructor for each `throw` expression of zwayland/wire.
pub data Error : Type 0 where
  invalid_letter : Error
  dangling_nullable : Error
  string_too_large : Error
  string_has_nul : Error
  array_too_large : Error
  dup_failed : Error
  message_too_large : Error
  truncated : Error
  missing_fd : Error
  not_terminated : Error
  embedded_nul : Error
  invalid_signature : Error
