-- ===== src/Store/Journal/Replay.antt =====
-- crates/pantheon-store/src/command.rs: a command runs once.
use pantheon.Base.{ℕ}
use pantheon.Store.Database.{Database, LedgerEntry}
use pantheon.Store.Journal.History.{History}
use pantheon.Store.Journal.{Command}

abbrev entry_of : Command → ℕ → ℕ → LedgerEntry
entry_of c s t = record {
  epoch = c.epoch;
  id = c.id;
  request_hash = c.request_hash.bytes;
  sequence = s;
  recorded_at = t;
}
