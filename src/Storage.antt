-- ===== src/Storage.antt =====
-- pkg/storage/memory.go, and the paths of pkg/storage/local.go in Storage/Local.
pub mod Objects
pub mod Local
mod Tests
use gomyadmin.Base.{
  ℕ, ◌+◌, Bool, true, false, not, ◌&&◌, Option, none, some, List, [], ◌∷◌, ◌++◌, Str, ◌==◌, str_eq,
  nat_eq, length, if◌then◌else◌,
}
use gomyadmin.Base.Result.{Result, ok, err}
use gomyadmin.Text.{lit}
use gomyadmin.Dict.{Dict, lookup, insert}
use gomyadmin.Dict

-- `type Object struct`; its reader is the text that it reads, or none if it fails.
pub record Object : Type 0 where
  pub key : Str
  pub reader : Option Str
  pub content_type : Str
  pub size : ℕ
  pub private : Bool
  pub metadata : Dict Str

-- `type StoredObject struct`
pub record StoredObject : Type 0 where
  pub key : Str
  pub url : Str
  pub content_type : Str
  pub size : ℕ
  pub private : Bool
  pub created_at : ℕ

-- `type memObject struct`
pub record MemObject : Type 0 where
  pub content : Str
  pub content_type : Str
  pub private : Bool
  pub metadata : Dict Str
  pub created_at : ℕ

-- `type Memory struct`, less its lock, under which each call is one step.
pub record Memory : Type 0 where
  pub objects : Dict MemObject
  pub public_url : Str

-- `ErrNotFound`, `ErrUnsupported`, the errors of `Put` and that of `safePath`.
pub data StorageError : Type 0 where
  not_found unsupported key_required read_failed invalid_key : StorageError

-- `strings.TrimRight(s, "/")`
unfoldable pub trim_slashes : Str → Str
trim_slashes [] = []
trim_slashes (c ∷ s) = let rest = trim_slashes s in if c == b'/' && rest == [] then [] else c ∷ rest

-- `func NewMemory`
abbrev pub new_memory : Str → Memory
new_memory public_url = record { objects = []; public_url = trim_slashes public_url }

-- `func (m *Memory) Put` at the time `now`
unfoldable pub put : Object → ℕ → Memory → Memory × Result StorageError (Unit {0})
put object now m =
    let stored : Memory × Result StorageError (Unit {0}) = elim object.reader [
      | none ↦ (m, err read_failed)
      | some content ↦ (
        record m {
          objects =
              insert object.key
                (record {
                  content = content;
                  content_type = object.content_type;
                  private = object.private;
                  metadata = object.metadata;
                  created_at = now;
                })
                m.objects;
        },
        ok tt,
      )
    ] in
    if object.key == [] then (m, err key_required) else stored

-- `func (m *Memory) Get`
unfoldable pub get : Str → Memory → Result StorageError Object
get key m = elim (lookup key m.objects) [
  | none ↦ err not_found
  | some o ↦ ok (record {
    key = key;
    reader = some o.content;
    content_type = o.content_type;
    size = length o.content;
    private = o.private;
    metadata = o.metadata;
  })
]

-- `func (m *Memory) Delete`
unfoldable pub delete : Str → Memory → Memory
delete key m = record m { objects = Dict.delete key m.objects }

-- `func (m *Memory) Stat`; `escape` is `url.PathEscape`.
unfoldable pub stat : (Str → Str) → Str → Memory → Result StorageError StoredObject
stat escape key m = elim (lookup key m.objects) [
  | none ↦ err not_found
  | some o ↦ ok (record {
    key = key;
    url =
        (if not (m.public_url == []) && not o.private
          then m.public_url ++ (lit "/" ++ escape key)
          else []);
    content_type = o.content_type;
    size = length o.content;
    private = o.private;
    created_at = o.created_at;
  })
]

-- `func (m *Memory) SignedURL`; `expires` is the escaped time of expiry.
unfoldable pub signed_url : (Str → Str) → Str → Str → Memory → Result StorageError Str
signed_url escape key expires m =
    let signed : Result StorageError Str =
      if m.public_url == []
      then err unsupported
      else ok (m.public_url ++ (lit "/" ++ (escape key ++ (lit "?expires=" ++ expires)))) in
    elim (lookup key m.objects) [ none ↦ err not_found | some _ ↦ signed ]

-- `func (m *Memory) Len`
unfoldable pub len : Memory → ℕ
len m = length m.objects
