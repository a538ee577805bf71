-- ===== src/Registry/Tests.antt =====
-- A small registry, and names as the tests of `pkg/admin` spell them.
use gomyadmin.Base.{
  ◌≡◌, ◌↔◌, ◌∙◌, refl, ap, some-injective, true, false, ◌==◌, str_eq, Option, some, List, Str,
  get_elem?, map, In, IsDistinct, str_beq,
}
use gomyadmin.Dict.{lookup, insert}
use gomyadmin.Registry.Found.{
  IsOther, now, then_makes, then_changes, then_registers, resource-resource, keys_of, listed_name,
  resources_of_lem,
}
use gomyadmin.Registry.Names.{
  upper_first, ModelType, named, pointer, resource_name, titleize, pluralize, snake_plural, slug,
  camel_to_snake,
}
use gomyadmin.Registry.Reached.{IsValid, start, next, makes, changes, Reached-IsValid}
use gomyadmin.Registry.Resources.{modify, adds_field, field_primary}
use gomyadmin.Registry.{App, new_app, resource, on_resource, register, get_resource, resources_of}
use gomyadmin.Text.Case.{
  to_lower, is_letter, is_upper, lower_byte, is_lower, is_digit, upper_byte, contains,
}
use gomyadmin.Text.Order.Sorted.{IsSorted}
use gomyadmin.Text.{replace_byte, has_suffix, has_prefix, join, lit, trim_space}

titles : titleize (lit "supportTicket") ≡ lit "Support Ticket"
unfolding titleize str_beq trim_space join is_upper is_lower is_letter to_lower upper_byte
titles = refl

keeps_acronym : titleize (lit "APIKey") ≡ lit "API Key"
unfolding titleize str_beq trim_space join is_upper is_lower is_digit is_letter to_lower upper_byte
keeps_acronym = refl

plurals :
    (pluralize (lit "Category") ≡ lit "Categories")
    × (pluralize (lit "day") ≡ lit "days")
    × (pluralize (lit "Box") ≡ lit "Boxes")
unfolding pluralize has_suffix to_lower str_beq
plurals = (refl, refl, refl)

plural_table : snake_plural (lit "auditLog") ≡ lit "audit_logs"
unfolding snake_plural has_suffix to_lower join trim_space is_lower str_beq
plural_table = refl

model_name : resource_name (some (pointer (named (lit "SupportTicket")))) ≡ lit "supportTicket"
unfolding resource_name str_beq trim_space is_upper is_lower to_lower join upper_first upper_byte
model_name = refl

slugged : slug (lit " Refund _ order") ≡ lit "refund-order"
unfolding slug replace_byte trim_space to_lower contains has_prefix
slugged = refl

snaked :
    (camel_to_snake (lit "TenantID") ≡ lit "tenant_id")
    × (camel_to_snake (lit "APIKey") ≡ lit "api_key")
    × (camel_to_snake (lit "CreatedAt") ≡ lit "created_at")
unfolding camel_to_snake is_upper lower_byte is_lower is_digit
snaked = (refl, refl, refl)

abbrev user : Option ModelType
user = some (named (lit "User"))

abbrev app : App
app = (resource user (new_app (lit "Shop"))).0

Reached-IsValid_example : IsValid (on_resource 0 (adds_field (lit "ID")) app)
Reached-IsValid_example =
    Reached-IsValid {name = lit "Shop"}
      (next (next start (makes user)) (changes 0 (adds_field (lit "ID"))))

abbrev post : Option ModelType
post = some (named (lit "Post"))

-- The registry after some calls, with a second resource that is registered again.
abbrev later : App
later =
    register 1 (
      on_resource 0 (field_primary 0) (on_resource 0 (adds_field (lit "ID")) (resource post app).0))

not_the_user :
    IsOther
      (resource_name user)
      (on_resource 0
        (field_primary 0)
        (on_resource 0 (adds_field (lit "ID")) (resource post app).0))
      1
unfolding resource resource_name lookup str_beq on_resource new_app insert modify trim_space
    is_upper is_lower to_lower join upper_first upper_byte
not_the_user r e n =
    let known : some (lit "post") ≡ some r.name = ap listed_name e in
    let same : lit "post" ≡ lit "user" = some-injective known ∙ n in
    let differ : true ≡ false = ap (λ s. s == lit "post") same in absurd (cc differ)

resource-resource_example :
    (resource user later ≡ (later, (resource user (new_app (lit "Shop"))).1))
    × (get_resource later (resource_name user)
        ≡ get_elem? later.heap (resource user (new_app (lit "Shop"))).1)
resource-resource_example = resource-resource user (new_app (lit "Shop")) later (
    then_registers
      (then_changes (then_changes (then_makes now post) 0 (adds_field (lit "ID"))) 0
        (field_primary 0))
      1 not_the_user)

resources_of_lem_example :
    (names : List Str) × (map listed_name (resources_of app) ≡ map some names)
    × IsSorted names
    × IsDistinct names
    × ((n : Str) → In n names ↔ In n (keys_of app))
resources_of_lem_example = resources_of_lem {name = lit "Shop"} (next start (makes user))
