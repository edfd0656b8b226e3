-- ===== src/Files/Samples.antt =====
-- Files as a deployment could hold them.
use environments_api.Common.{ℕ, ◌+◌, ◌%◌, some, [], ◌∷◌, arith}
use environments_api.Common.Result.{Result, ok}
use environments_api.Files.Tree.{Text, FilePath, Bytes, file, Tree, put}
use environments_api.Files.Access.{etag_of}
use environments_api.Files.Validators.{IsHexdigest, IsNoComma}
use environments_api.Files.Action.{World}
use environments_api.Files.Mutations.{Host, Mutation}

-- A digest of one digit: contents of one sum collide.
abbrev sum_of : Bytes → ℕ
sum_of [] = 0
sum_of (b ∷ bs) = b + sum_of bs

abbrev pub digest_of : Bytes → Text
digest_of b = (b'0' + sum_of b % 10) ∷ []

pub digit-IsNoComma : (n : ℕ) → IsNoComma (b'0' + n % 10)
digit-IsNoComma n = ground arith

abbrev pub digest : IsHexdigest digest_of
digest = record { no_comma = λ b. (digit-IsNoComma (sum_of b), tt) }

abbrev pub name : Text → Result FilePath
name requested = ok (requested ∷ [])

-- A shell writes a log while files are replaced.
abbrev pub log_written : Tree → Tree
log_written t = put ((b'l' ∷ b'o' ∷ b'g' ∷ []) ∷ []) (file (b'1' ∷ [])) t

abbrev pub host : Host
host = record {
  sha256_hex = digest_of;
  b64decode = λ text. some text;
  b64encode = λ b. b;
  unified_diff = λ path old new. new;
  relative_path = name;
  temporary = b'.' ∷ b't' ∷ [];
  between = log_written;
  elsewhere = log_written;
  at_last = log_written;
  written = ok tt;
  replaced = ok tt;
  directory_size = 4096;
  max_read = 4;
  max_write = 100;
}

-- `note.txt` holds "abc".
abbrev pub note_path : Text
note_path = b'n' ∷ []

abbrev pub workspace : World (Unit {0})
workspace = record { tree = (note_path ∷ [], file (b'a' ∷ b'b' ∷ b'c' ∷ [])) ∷ []; service = tt }

abbrev pub edited : World (Unit {0})
edited = record {
  tree =
      (note_path ∷ [], file (b'a' ∷ b'x' ∷ b'y' ∷ b'c' ∷ []))
      ∷ ((b'l' ∷ b'o' ∷ b'g' ∷ []) ∷ [], file (b'1' ∷ []))
      ∷ [];
  service = tt;
}

abbrev pub edited_mutation : Mutation
edited_mutation = record {
  path = note_path ∷ [];
  size = 4;
  etag = etag_of digest_of (b'a' ∷ b'x' ∷ b'y' ∷ b'c' ∷ []);
  diff = b'a' ∷ b'x' ∷ b'y' ∷ b'c' ∷ [];
  applied_hunks = [];
  rejected_hunks = [];
}
