-- ===== src/Registry/Fields.antt =====
-- `pkg/admin/field.go`: the fields of a resource and the methods that set them up. A method changes the
-- field behind its pointer and returns the pointer, so it is a function on the field here.
use gomyadmin.Base.{Bool, true, false, Option, none, some, List, [], ◌++◌, Str, str_eq}
use gomyadmin.Database.{Value, nil}
use gomyadmin.Dict.{Dict, insert}
use gomyadmin.Registry.Names.{ModelType, resource_name}
use gomyadmin.Text.{lit}

pub data FieldType : Type 0 where
  string text email password number integer float decimal money boolean enum status : FieldType
  date date_time time uuid json jsonb markdown rich_text image file relation computed : FieldType

pub record Relation : Type 0 where
  pub resource : Str
  pub foreign_key : Str
  pub display_field : Str
  pub kind : Str

-- `type Field struct`, less the pointer to its resource: a field is reached through its resource.
pub record Field : Type 0 where
  pub name : Str
  pub label : Str
  pub kind : FieldType
  pub required : Bool
  pub unique : Bool
  pub nullable : Bool
  pub searchable : Bool
  pub sortable : Bool
  pub filterable : Bool
  pub readonly : Bool
  pub hidden : Bool
  pub hidden_in_list : Bool
  pub hidden_in_form : Bool
  pub hidden_in_detail : Bool
  pub primary : Bool
  pub tenant_key : Bool
  pub default_value : Value
  pub validation_rules : List Str
  pub help_text : Str
  pub placeholder : Str
  pub badge_colors : Dict Str
  pub enum_values : List Str
  pub currency : Str
  pub related : Option Relation
  pub renderer_name : Str
  pub formatter_name : Str
  pub parser_name : Str

-- The literal of `func (r *Resource) Field`
abbrev pub new_field : Str → Field
new_field field_name = record {
  name = field_name;
  label = field_name;
  kind = string;
  required = false;
  unique = false;
  nullable = false;
  searchable = false;
  sortable = false;
  filterable = false;
  readonly = false;
  hidden = false;
  hidden_in_list = false;
  hidden_in_form = false;
  hidden_in_detail = false;
  primary = false;
  tenant_key = false;
  default_value = nil;
  validation_rules = [];
  help_text = [];
  placeholder = [];
  badge_colors = [];
  enum_values = [];
  currency = [];
  related = none;
  renderer_name = [];
  formatter_name = [];
  parser_name = [];
}

-- The methods that set the type and nothing else, from `String` to `Computed`
unfoldable pub set_type : FieldType → Field → Field
set_type t f = record f { kind = t }

unfoldable pub set_money : Str → Field → Field
set_money currency f = record f { kind = money; currency = currency }

unfoldable pub set_enum : List Str → Field → Field
set_enum values f = record f { kind = enum; enum_values = values }

unfoldable pub badge : Field → Field
badge f = elim f.kind [ enum ↦ record f { kind = status } | _ ↦ f ]

unfoldable pub badge_color : Str → Str → Field → Field
badge_color value color f = record f { badge_colors = insert value color f.badge_colors }

abbrev no_relation : Relation
no_relation = record { resource = []; foreign_key = []; display_field = []; kind = [] }

unfoldable pub belongs_to : Option ModelType → Field → Field
belongs_to model f = record f {
  kind = relation;
  related = some (record no_relation { resource = resource_name model; kind = lit "belongs_to" });
}

unfoldable pub has_many : Option ModelType → Field → Field
has_many model f = record f {
  kind = relation;
  related = some (record no_relation { resource = resource_name model; kind = lit "has_many" });
}

-- `f.Relation`, or a new one
abbrev relation_or_new : Option Relation → Relation
relation_or_new none = no_relation
relation_or_new (some r) = r

unfoldable pub display : Str → Field → Field
display field f = record f {
  related = some (record (relation_or_new f.related) { display_field = field });
}

unfoldable pub foreign_key_of : Str → Field → Field
foreign_key_of field f = record f {
  related = some (record (relation_or_new f.related) { foreign_key = field });
}

-- The methods from `Required` to `DateRangeFilter`, but for `Primary`
pub data Flag : Type 0 where
  required unique nullable searchable sortable filterable readonly hidden : Flag
  hidden_in_list hidden_in_form hidden_in_detail tenant_key date_range_filter : Flag

unfoldable pub set_flag : Flag → Field → Field
set_flag Flag.required f = record f { required = true }
set_flag Flag.unique f = record f { unique = true }
set_flag Flag.nullable f = record f { nullable = true }
set_flag Flag.searchable f = record f { searchable = true }
set_flag Flag.sortable f = record f { sortable = true }
set_flag Flag.filterable f = record f { filterable = true }
set_flag Flag.readonly f = record f { readonly = true }
set_flag Flag.hidden f = record f { hidden = true }
set_flag Flag.hidden_in_list f = record f { hidden_in_list = true }
set_flag Flag.hidden_in_form f = record f { hidden_in_form = true }
set_flag Flag.hidden_in_detail f = record f { hidden_in_detail = true }
set_flag Flag.tenant_key f = record f { tenant_key = true }
set_flag Flag.date_range_filter f = record f { filterable = true }

-- The methods from `DefaultValue` to `Parser`
unfoldable pub set_default : Value → Field → Field
set_default value f = record f { default_value = value }

unfoldable pub add_rules : List Str → Field → Field
add_rules rules f = record f { validation_rules = f.validation_rules ++ rules }

pub data Caption : Type 0 where
  help placeholder renderer formatter parser : Caption

unfoldable pub set_caption : Caption → Str → Field → Field
set_caption help s f = record f { help_text = s }
set_caption Caption.placeholder s f = record f { placeholder = s }
set_caption renderer s f = record f { renderer_name = s }
set_caption formatter s f = record f { formatter_name = s }
set_caption parser s f = record f { parser_name = s }

-- A call of one of the methods above
pub data FieldCall : Type 0 where
  typed : FieldType → FieldCall
  of_currency : Str → FieldCall
  of_values : List Str → FieldCall
  as_badge : FieldCall
  colored : Str → Str → FieldCall
  belongs : Option ModelType → FieldCall
  has : Option ModelType → FieldCall
  displays : Str → FieldCall
  keyed_by : Str → FieldCall
  flagged : Flag → FieldCall
  by_default : Value → FieldCall
  validated : List Str → FieldCall
  captioned : Caption → Str → FieldCall

unfoldable pub call_field : FieldCall → Field → Field
unfolding set_type set_money set_enum badge badge_color belongs_to has_many display foreign_key_of
    set_flag set_default add_rules set_caption
call_field (typed t) f = set_type t f
call_field (of_currency c) f = set_money c f
call_field (of_values vs) f = set_enum vs f
call_field as_badge f = badge f
call_field (colored v c) f = badge_color v c f
call_field (belongs m) f = belongs_to m f
call_field (has m) f = has_many m f
call_field (displays s) f = display s f
call_field (keyed_by s) f = foreign_key_of s f
call_field (flagged g) f = set_flag g f
call_field (by_default v) f = set_default v f
call_field (validated rs) f = add_rules rs f
call_field (captioned c s) f = set_caption c s f
