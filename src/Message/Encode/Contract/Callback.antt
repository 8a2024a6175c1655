-- ===== src/Message/Encode/Contract/Callback.antt =====
-- What `encode_field` writes for a callback field, in terms of what the function of the application writes.
use ios_college_work.Stream.Writes.{Writes}
use ios_college_work.Message.Field.{Field}
use ios_college_work.Message.Encode.Env.{Env}
