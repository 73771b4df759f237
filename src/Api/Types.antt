-- ===== src/Api/Types.antt =====
-- The data that web/src/lib/api.ts exchanges with the server. Identifiers and counts are natural
-- numbers, as the server makes them; `N` is the type of the numbers with a fraction.
use veckomenyn.Base.{ℕ, Bool, Option, List, Text}
use veckomenyn.Base.Assoc.{Assoc}
use veckomenyn.Api.Http.{ℤ}

pub record Conversation : Type 0 where
  pub id : ℕ
  pub title : Text
  pub started_at : Text
  pub updated_at : Text

pub data Role : Type 0 where
  user assistant tool : Role

pub record Message : Type 0 where
  pub id : ℕ
  pub role : Role
  pub text : Text
  pub created_at : Text

pub record Dialogue : Type 0 where
  pub conversation : Conversation
  pub messages : List Message

pub data Status : Type 0 where
  draft cart_built ordered : Status

pub record WeekSummary : Type 0 where
  pub id : ℕ
  pub iso_week : Text
  pub start_date : Text
  pub end_date : Text
  pub delivery_date : Option Text
  pub order_date : Option Text
  pub status : Status
  pub dinner_count : ℕ
  pub updated_at : Text

pub data DinnerRating : Type 0 where
  loved liked meh disliked : DinnerRating

pub record Dinner : Type 0 where
  pub id : ℕ
  pub day_date : Text
  pub dish_id : Option ℕ
  pub dish_name : Text
  pub cuisine : Option Text
  pub servings : ℕ
  pub sourcing : Assoc Text
  pub recipe_md : Text
  pub notes : Text
  pub rating : Option DinnerRating
  pub rating_notes : Text

pub record Exception : Type 0 where
  pub id : ℕ
  pub kind : Text
  pub description : Text

pub record Retrospective : Type 0 where
  pub id : ℕ
  pub notes_md : Text
  pub created_at : Text

pub record CartItemSnapshot (N : Type 0) : Type 0 where
  pub name : Option Text
  pub unit_price : Option N
  pub line_total : Option N

pub record CartItem (N : Type 0) : Type 0 where
  pub id : ℕ
  pub product_code : Text
  pub qty : N
  pub reason_md : Text
  pub committed : Bool
  pub snapshot : CartItemSnapshot N

pub record WeekDetail (N : Type 0) : Type 0 where
  pub summary : WeekSummary
  pub notes_md : Text
  pub dinners : List Dinner
  pub exceptions : List Exception
  pub retrospectives : List Retrospective
  pub cart_items : List (CartItem N)

pub record WeekCreate : Type 0 where
  pub start_date : Text
  pub end_date : Text
  pub notes_md : Text

-- `none` is a property that is absent, `some none` one that is `null`.
pub record WeekPatch : Type 0 where
  pub iso_week : Option Text
  pub start_date : Option Text
  pub end_date : Option Text
  pub delivery_date : Option (Option Text)
  pub order_date : Option (Option Text)
  pub status : Option Status
  pub notes_md : Option Text

pub data Language : Type 0 where
  swedish english : Language

pub record HouseholdSettings : Type 0 where
  pub default_dinners : ℕ
  pub default_delivery_weekday : ℕ
  pub default_order_offset_days : ℤ
  pub default_servings : ℕ
  pub language : Language
  pub llm_provider : Text
  pub notes_md : Text

pub record SettingsPatch : Type 0 where
  pub default_dinners : Option ℕ
  pub default_delivery_weekday : Option ℕ
  pub default_order_offset_days : Option ℤ
  pub default_servings : Option ℕ
  pub language : Option Language
  pub llm_provider : Option Text
  pub notes_md : Option Text

pub record ProviderFieldOption : Type 0 where
  pub value : Text
  pub label : Text

pub data FieldType : Type 0 where
  text_field password_field select_field : FieldType

pub record ProviderField : Type 0 where
  pub key : Text
  pub label : Text
  pub type : FieldType
  pub options : Option (List ProviderFieldOption)
  pub default : Option Text
  pub placeholder : Option Text
  pub required : Option Bool
  pub hint : Option Text

pub data Category : Type 0 where
  llm shopping : Category

pub record ProviderKindInfo : Type 0 where
  pub kind : Text
  pub category : Category
  pub display_name : Text
  pub fields : List ProviderField

pub record Provider : Type 0 where
  pub kind : Text
  pub enabled : Bool
  pub config : Assoc Text
  pub updated_at : Option Text

pub record ProvidersEnvelope : Type 0 where
  pub known : List ProviderKindInfo
  pub providers : List Provider
  pub sentinel : Text

pub record ProviderPatch : Type 0 where
  pub enabled : Option Bool
  pub config : Option (Assoc Text)

pub record TestProviderResult : Type 0 where
  pub ok : Bool
  pub error : Option Text
  pub model : Option Text
  pub reply : Option Text
  pub usage : Option (ℕ × ℕ)
