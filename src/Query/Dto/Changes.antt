-- ===== src/Query/Dto/Changes.antt =====
-- crates/next-infra-query/src/dto/mod.rs: changes and the timeline.
use next_infra.Base.{List, Option, Text}
use next_infra.Core.Json.{Value}

pub data ChangeSubjectDto : Type 0 where
  resource : Text → ChangeSubjectDto
  relation : Text → ChangeSubjectDto
  binding : Text → ChangeSubjectDto

pub record FieldChangeDto : Type 0 where
  pub path : Text
  pub before : Option Value
  pub after : Option Value

pub data ChangeOriginDto : Type 0 where
  sync_run : Text → ChangeOriginDto
  binding : Text → ChangeOriginDto
  inference : Text → List Text → List Text → ChangeOriginDto

pub record ChangeDto : Type 0 where
  pub change_id : Text
  pub subject : ChangeSubjectDto
  pub observed_at : Text
  pub fields : List FieldChangeDto
  pub origin : ChangeOriginDto

pub data TimelineOriginDto : Type 0 where
  sync_run : Text → TimelineOriginDto
  binding : Text → TimelineOriginDto
  inference : Text → List Text → List Text → TimelineOriginDto

pub data TimelineVersionLinkDto : Type 0 where
  resource : Text → Text → TimelineVersionLinkDto
  relation : Text → Text → TimelineVersionLinkDto

pub record TimelineItemDto : Type 0 where
  pub change : ChangeDto
  pub version_links : List TimelineVersionLinkDto

pub record TimelineGroupDto : Type 0 where
  pub group_id : Text
  pub origin : TimelineOriginDto
  pub occurred_at : Text
  pub items : List TimelineItemDto
