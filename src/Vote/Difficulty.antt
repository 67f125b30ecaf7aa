-- ===== src/Vote/Difficulty.antt =====
-- crypto/vote/mod.rs: the difficulty of a vote.
use randbotd.Base.Crypto.{Crypto}
