-- ===== src/Effect/Answer.antt =====
-- How a server answers a request: it does, it fails and changes nothing, or it does what was asked
-- and the answer is lost.
use flashsale_service.Errors.{Error, external}

pub data Answer : Type 0 where
  answered failed reply_lost : Answer

abbrev pub connection_lost : Error
connection_lost = external "driver: bad connection"
