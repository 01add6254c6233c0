-- ===== src/Alerts/Query.antt =====
-- The filters of a search for alerts (src/alerts/alerts.service.ts and
-- src/alerts/dto/alert-query.dto.ts).
use complif_techinical_chall.Base.{
  String, ◌==◌, Bool, true, false, Option, none, some, if◌then◌else◌,
}
use complif_techinical_chall.Common.Pagination.{PaginationQuery}
use complif_techinical_chall.Entities.{
  Alert, AlertSeverity, low, medium, high, critical, AlertCategory, aml, fraud, compliance, unknown,
  AlertStatus, open_status, acknowledged, resolved, false_positive,
}

abbrev pub matches_status : Option AlertStatus → Alert → Bool
matches_status none a = true
matches_status (some open_status) a = elim a.status [ open_status ↦ true | _ ↦ false ]
matches_status (some acknowledged) a = elim a.status [ acknowledged ↦ true | _ ↦ false ]
matches_status (some resolved) a = elim a.status [ resolved ↦ true | _ ↦ false ]
matches_status (some false_positive) a = elim a.status [ false_positive ↦ true | _ ↦ false ]

abbrev pub matches_severity : Option AlertSeverity → Alert → Bool
matches_severity none a = true
matches_severity (some low) a = elim a.severity [ low ↦ true | _ ↦ false ]
matches_severity (some medium) a = elim a.severity [ medium ↦ true | _ ↦ false ]
matches_severity (some high) a = elim a.severity [ high ↦ true | _ ↦ false ]
matches_severity (some critical) a = elim a.severity [ critical ↦ true | _ ↦ false ]

abbrev pub matches_category : Option AlertCategory → Alert → Bool
matches_category none a = true
matches_category (some aml) a = elim a.category [ aml ↦ true | _ ↦ false ]
matches_category (some fraud) a = elim a.category [ fraud ↦ true | _ ↦ false ]
matches_category (some compliance) a = elim a.category [ compliance ↦ true | _ ↦ false ]
matches_category (some unknown) a = elim a.category [ unknown ↦ true | _ ↦ false ]

abbrev pub matches_rule : Option String → Alert → Bool
matches_rule none a = true
matches_rule (some id) a = if id == "" then true else a.id_rule == id

pub record AlertQueryDto : Type 0 where
  pub status : Option AlertStatus
  pub severity : Option AlertSeverity
  pub category : Option AlertCategory
  pub rule_id : Option String
  pub paging : PaginationQuery
