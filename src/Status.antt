-- ===== src/Status.antt =====
-- include/core/CoreStatus.hpp: the status codes that the components return.
pub data StatusCode : Type 0 where
  ok again invalid not_found error : StatusCode
