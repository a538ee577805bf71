-- ===== src/Storage/Objects.antt =====
-- What is read of an object of pkg/storage/memory.go after it was put.
use gomyadmin.Base.{
  ℕ, ◌≡◌, refl, sym, ap, ◌∙◌, ◌≢◌, inl, inr, Bool-cases, Option, none, some, Option-cases, Str,
  str_beq-false, ◌==◌, str_eq, [], length, if◌then◌else◌,
}
use gomyadmin.Base.Result.{Result, ok, err}
use gomyadmin.Dict.{lookup, insert, lookup-insert, lookup-delete}
use gomyadmin.Storage.{Object, MemObject, Memory, StorageError, not_found, put, get, delete}

-- What `Get` makes of what the map has.
abbrev read_of : Str → Option MemObject → Result StorageError Object
read_of key none = err not_found
read_of key (some o) = ok (record {
  key = key;
  reader = some o.content;
  content_type = o.content_type;
  size = length o.content;
  private = o.private;
  metadata = o.metadata;
})

get-eq : (key : Str) (m : Memory) → get key m ≡ read_of key (lookup key m.objects)
unfolding get
get-eq key m = elim (Option-cases (lookup key m.objects)) [
  | inl n ↦ rw (get, n) refl
  | inr (o, e) ↦ rw (get, e) refl
]

put-eq :
    (object : Object) (content : Str) (now : ℕ) (m : Memory)
    → object.key ≢ []
    → object.reader ≡ some content
    → (put object now m).0 ≡ record m {
      objects =
          insert object.key
            (record {
              content = content;
              content_type = object.content_type;
              private = object.private;
              metadata = object.metadata;
              created_at = now;
            })
            m.objects;
    }
unfolding put
put-eq object content now m h r = rw (put, str_beq-false object.key [] h, r) refl

-- After a `Put` of an object with a key and a text, `Get` of its key gives the object with the text and
-- its length, and `Get` of another key gives what it gave before.
pub get-put :
    (object : Object) (content asked : Str) (now : ℕ) (m : Memory)
    → object.key ≢ []
    → object.reader ≡ some content
    → get asked (put object now m).0 ≡ (
        if object.key == asked
        then ok (record object { key = asked; reader = some content; size = length content })
        else get asked m)
get-put object content asked now m h r =
    let item : MemObject = record {
      content = content;
      content_type = object.content_type;
      private = object.private;
      metadata = object.metadata;
      created_at = now;
    } in
    ap (get asked) (put-eq object content now m h r)
    ∙ get-eq asked (record m { objects = insert object.key item m.objects })
    ∙ ap (read_of asked) (lookup-insert object.key asked item m.objects)
    ∙ elim (Bool-cases (object.key == asked)) [
      | inl b ↦ rw b refl
      | inr b ↦ rw b (sym (get-eq asked m))
    ]

-- After a `Delete` the key is not found, and what is found under another key does not change.
pub get-delete :
    (key asked : Str) (m : Memory)
    → get asked (delete key m) ≡ (if key == asked then err not_found else get asked m)
unfolding delete
get-delete key asked m =
    get-eq asked (delete key m)
    ∙ ap (read_of asked) (lookup-delete key asked m.objects)
    ∙ elim (Bool-cases (key == asked)) [ inl b ↦ rw b refl | inr b ↦ rw b (sym (get-eq asked m)) ]
