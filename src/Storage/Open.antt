-- ===== src/Storage/Open.antt =====
-- storage/db/mod.rs: the loop of Database::open that reads the event log back from its file. The lines are
-- taken as decoded; a line that is no JSON stops the loop in the same way.
use randbotd.Base.{
  ℕ, ◌+◌, ◌≡◌, ◌↔◌, ◌<◌, refl, sym, ap, ◌∙◌, false, List, [], ◌∷◌, ◌++◌, some, find, bytes_eq,
  arith, All,
}
use randbotd.Base.Result.{◌>>=◌, ◌>>◌, Result, ok, err, fail_if, map_err, is_ok}
use randbotd.Base.Bytes.{Bytes}
use randbotd.Base.Crypto.{Crypto}
use randbotd.History.{EventLogEntry, EntryError, is_transient, compute_hash, verify_entry}
use randbotd.Storage.{Database, expected, is_event_at, proof_entry, append_event}
use randbotd.Storage.Cache.{append_event-appends}

pub data LoadError : Type 0 where
  transient_line : ℕ → ℕ → LoadError
  signature_line : ℕ → EntryError → LoadError

-- The entries of the lines, the first of which has the number `line_num`.
pub load_from : Crypto → ℕ → List EventLogEntry → Result LoadError (List EventLogEntry)
load_from c line_num [] = ok []
load_from c line_num (entry ∷ lines) = do
  fail_if (is_transient entry.payload_type) (transient_line line_num entry.payload_type)
  map_err (signature_line line_num) (verify_entry c entry)
  entries ← load_from c (line_num + 1) lines
  ok (entry ∷ entries)

pub load_entries : Crypto → List EventLogEntry → Result LoadError (List EventLogEntry)
unfolding load_from
load_entries c lines = load_from c 0 lines

abbrev pub IsLoadable : Crypto → EventLogEntry → Type 0
IsLoadable c e = (is_transient e.payload_type ≡ false) × (verify_entry c e ≡ ok tt)

load_from_sound :
    (c : Crypto) (n : ℕ) (lines entries : List EventLogEntry)
    → load_from c n lines ≡ ok entries
    → (entries ≡ lines) × All (IsLoadable c) lines
unfolding load_from
load_from_sound c n [] entries h = (ground arith, tt)
load_from_sound c n (e ∷ lines) entries h =
    split (load_from c (n + 1) lines) refl (load_from_sound c (n + 1) lines)
  where
    split :
        (r : Result LoadError (List EventLogEntry))
        → load_from c (n + 1) lines ≡ r
        → ((es : List EventLogEntry)
            → load_from c (n + 1) lines ≡ ok es
            → (es ≡ lines) × All (IsLoadable c) lines)
        → (entries ≡ e ∷ lines) × All (IsLoadable c) (e ∷ lines)
    split (err x) found ih = absurd (ground arith)
    split (ok rest) found ih =
        let later = ih rest found in
        (ground (arith, later.0), ((ground arith, ground arith), later.1))

load_from_complete :
    (c : Crypto) (n : ℕ) (lines : List EventLogEntry)
    → All (IsLoadable c) lines
    → load_from c n lines ≡ ok lines
unfolding load_from
load_from_complete c n [] h = refl
load_from_complete c n (e ∷ lines) h =
    rw (h.0.0, h.0.1, load_from_complete c (n + 1) lines h.1) refl

-- Opening returns entries exactly if they are the lines, all of them of types that may be logged and with
-- valid signatures.
pub load_entries_iff :
    (c : Crypto) (lines entries : List EventLogEntry)
    → (load_entries c lines ≡ ok entries) ↔ ((entries ≡ lines) × All (IsLoadable c) lines)
unfolding load_entries
load_entries_iff c lines entries =
    (load_from_sound c 0 lines entries, λ h. load_from_complete c 0 lines h.1 ∙ ap ok (sym h.0))

load_from_bad :
    (c : Crypto) (n : ℕ) (xs : List EventLogEntry) (e : EventLogEntry)
    → is_ok (verify_entry c e) ≡ false
    → is_ok (load_from c n (xs ++ e ∷ [])) ≡ false
unfolding load_from
load_from_bad c n [] e h = ground arith
load_from_bad c n (x ∷ xs) e h = ground (arith, load_from_bad c (n + 1) xs e h)

module _ (c : Crypto) (encode_proof : EventLogEntry → EventLogEntry → Bytes) (db : Database)
    (e x : EventLogEntry)
    (accepted : (is_transient e.payload_type ≡ false) × (verify_entry c e ≡ ok tt))
    (late : e.seq < (expected c encode_proof db.event_log e.originator).0)
    (existing : find (is_event_at e.originator e.seq) db.event_log ≡ some x)
    (conflict : bytes_eq (compute_hash c x) (compute_hash c e) ≡ false)
    (unflagged : x.is_bullshit ≡ false) (writes : db.disk ≡ []) where
  -- If an accepted event conflicts with a logged, unflagged event of its number, every write succeeds,
  -- and the event's signature does not also sign the equivocation proof that carries it, then the log
  -- that `append_event` leaves cannot be opened again.
  pub equivocation_blocks_open :
      is_ok (verify_entry c (proof_entry c encode_proof x e)) ≡ false
      → is_ok (load_entries c (append_event c encode_proof db e).0.event_log) ≡ false
  unfolding load_entries
  equivocation_blocks_open forged =
      let shown =
        append_event-appends c encode_proof db e x accepted late existing conflict unflagged
          writes in
      rw shown (load_from_bad c 0 db.event_log (proof_entry c encode_proof x e) forged)
