-- ===== src/Lock/Tests.antt =====
-- Locks of src/lock/store.ts on a disk with one file.
mod Codec
use agent_pipeline_v.Base.{
  ℕ, ◌+◌, ◌*◌, leb, if◌then◌else◌, ◌≡◌, ◌≤◌, ◌⊎◌, ◌↔◌, ◌||◌, refl, ap, Bool, true, false, Option,
  none, some, List, [], ◌∷◌, arith, Text, codes, eq_text, is_some, any,
}
use agent_pipeline_v.Lock.{
  LockOwner, LockRecord, LockStore, LockFile, Disk, Request, Others, StaleReason, expired, corrupt,
  acquired, read, staleness, try_acquire, renewed, release, refused, is_dead, remove_same, create,
  write, create_lock, new_record,
}
use agent_pipeline_v.Lock.Takeover.{try_acquire-stale}
use agent_pipeline_v.Lock.Owner.{Owns, release_iff, try_acquire-Fresh}
use agent_pipeline_v.Lock.Tests.Codec.{print, parse, parse-print}

abbrev store : LockStore
store = record { host = codes "h"; init_grace = 10000 }

abbrev all_alive : ℕ → Bool
all_alive p = true

abbrev previous : LockRecord
previous = record {
  resource = codes "db";
  owner = record { pid = some 7; host = codes "h"; label = codes "old" };
  token = codes "aa";
  acquired_at = 0;
  expires_at = 1000;
  heartbeat_at = 0;
  ttl_seconds = 1;
  purpose = [];
}

abbrev request : Request
request = record {
  resource = codes "db";
  owner = record { pid = some 8; host = codes "h"; label = codes "new" };
  token = codes "bb";
  ttl_seconds = 60;
  purpose = [];
  inode = 2;
}

abbrev quiet : Others
quiet = record { before_removal = λ d. d; before_creation = λ d. d; before_write = λ d. d }

abbrev old_file : LockFile
old_file = record { raw = print previous; mtime = 0; inode = 1 }

abbrev mine : LockRecord
mine = record {
  resource = codes "db";
  owner = request.owner;
  token = codes "bb";
  acquired_at = 5000;
  expires_at = 65000;
  heartbeat_at = 5000;
  ttl_seconds = 60;
  purpose = [];
}

abbrev my_file : LockFile
my_file = record { raw = print mine; mtime = 5000; inode = 2 }

alive_owner : is_dead print parse store all_alive mine.owner ≡ false
unfolding eq_text
alive_owner = refl

my_content : (read print parse (some my_file)).content ≡ some mine
unfolding read
my_content = refl

taken :
    try_acquire print parse store all_alive request quiet 5000 5000 (some old_file)
    ≡ (acquired mine (some (expired, some previous)), some my_file)
unfolding try_acquire create_lock create write new_record read staleness remove_same eq_text
taken = refl

try_acquire-stale_example :
    ((read print parse (some old_file)).content ≡ some previous)
    × (is_some (staleness print parse store all_alive (read print parse (some old_file)) 6000)
        ≡ true)
try_acquire-stale_example =
    try_acquire-stale print parse store request quiet all_alive all_alive 5000 6000 5000
      (some old_file) mine previous expired (λ p h. h) (omega arith) (ap (λ x. x.0) taken)

try_acquire-Fresh_example :
    (mine.token ≡ request.token)
    × (mine.owner ≡ request.owner)
    × (((read print parse (some my_file)).content ≡ some mine)
        × (staleness print parse store all_alive (read print parse (some my_file)) 34000
            ≡ (if leb (5000 + 1000 * request.ttl_seconds) 34000 then some expired else none)))
try_acquire-Fresh_example =
    try_acquire-Fresh print parse store parse-print all_alive all_alive request quiet 5000 5000
      34000 (some old_file) (some my_file) mine (some (expired, some previous)) taken (λ d. refl)
      alive_owner

my_text : parse my_file.raw ≡ some mine
unfolding read
my_text = my_content

release_iff_example :
    let after = release print parse store (some (codes "bb")) [] false (some my_file) in
    ((after.1 ≡ none) ↔ Owns print parse store (some (codes "bb")) [] mine)
    × ((after.1 ≡ none) ⊎ (after ≡ (refused (some mine), some my_file)))
release_iff_example = release_iff print parse store (some (codes "bb")) [] my_file mine my_text

abbrev extended : LockFile
extended = record { raw = print (renewed print parse 60 9000 mine); mtime = 9000; inode = 3 }

-- A file that a crash left empty, taken over by two processes. The second removes the file that the
-- first created and has still to write, as empty as the one that it read.
abbrev crashed : LockFile
crashed = record { raw = []; mtime = 0; inode = 1 }

abbrev first_created : Disk
first_created = some (record { raw = []; mtime = 20000; inode = 2 })

abbrev beside_first : Others
beside_first = record {
  before_removal = λ d. first_created;
  before_creation = λ d. d;
  before_write = λ d. d;
}

abbrev second : Request
second = record {
  resource = codes "db";
  owner = record { pid = some 9; host = codes "h"; label = codes "second" };
  token = codes "cc";
  ttl_seconds = 60;
  purpose = [];
  inode = 3;
}

abbrev second_lock : LockRecord
second_lock = new_record print parse second.resource second.owner second.token 60 [] 20001

abbrev second_file : LockFile
second_file = record { raw = print second_lock; mtime = 20001; inode = 3 }

both_taken :
    try_acquire print parse store all_alive second beside_first 20000 20001 (some crashed)
    ≡ (acquired second_lock (some (corrupt, none)), some second_file)
unfolding try_acquire create_lock create write new_record read staleness remove_same eq_text
both_taken = refl

-- What the first writes then goes to the file that was removed.
first_writes_nowhere : write print parse 2 (print mine) 20002 (some second_file) ≡ some second_file
unfolding write new_record
first_writes_nowhere = refl
