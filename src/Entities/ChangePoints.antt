-- ===== src/Entities/ChangePoints.antt =====
-- Change points: features/change-points/domain.ts and mappers.ts.
use tropek.Prelude.{String, Option, map?}
use tropek.Evaluations.Mappers.{truthy}

pub record ChangePointReadDto (N : Type 0) : Type 0 where
  pub asset_id : String
  pub change_absolute : N
  pub change_relative_pct : Option N
  pub created_at : String
  pub detector : String
  pub direction : String
  pub found_by_evaluation_id : Option String
  pub id : String
  pub linked_ticket : Option String
  pub metric_name : String
  pub period_end : Option String
  pub period_start : String
  pub post_segment_mean : N
  pub post_segment_std : N
  pub pre_segment_mean : N
  pub pvalue : N
  pub slo_name : String
  pub status : String
  pub transition : Option String
  pub triage_at : Option String
  pub triage_author : Option String
  pub triage_note : Option String
  pub updated_at : String

pub record ChangePoint (N D : Type 0) : Type 0 where
  pub id : String
  pub asset_id : String
  pub slo_name : String
  pub metric_name : String
  pub period_start : D
  pub direction : String
  pub change_relative_pct : Option N
  pub transition : Option String
  pub change_absolute : N
  pub pre_segment_mean : N
  pub post_segment_mean : N
  pub pvalue : N
  pub status : String
  pub triage_author : Option String
  pub triage_note : Option String
  pub triage_at : Option D
  pub linked_ticket : Option String
  pub found_by_evaluation_id : Option String
  pub created_at : D

unfoldable pub dto_to_change_point :
    {N D : Type 0} → (String → D) → ChangePointReadDto N → ChangePoint N D
dto_to_change_point new_date dto = record {
  id = dto.id;
  asset_id = dto.asset_id;
  slo_name = dto.slo_name;
  metric_name = dto.metric_name;
  period_start = new_date dto.period_start;
  direction = dto.direction;
  change_relative_pct = dto.change_relative_pct;
  transition = dto.transition;
  change_absolute = dto.change_absolute;
  pre_segment_mean = dto.pre_segment_mean;
  post_segment_mean = dto.post_segment_mean;
  pvalue = dto.pvalue;
  status = dto.status;
  triage_author = dto.triage_author;
  triage_note = dto.triage_note;
  triage_at = map? new_date (truthy dto.triage_at);
  linked_ticket = dto.linked_ticket;
  found_by_evaluation_id = dto.found_by_evaluation_id;
  created_at = new_date dto.created_at;
}
