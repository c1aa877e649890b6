-- ===== src/Delivery/Store/Cleanup.antt =====
-- Which files `cleanup` removes.
use Prim.Native.String.{◌++◌}
use faryo_codex_web_ui.Base.{
  ℕ, ◌≡◌, ◌⊎◌, refl, ap, sym, ◌∙◌, Bool, true, false, Option, none, some, [], ◌∷◌, String, str_eq,
  Bool-cases, inl, inr, arith, Every, not, ◌&&◌, ltb, ◌+◌, ◌<◌, eq_iff, eq_refl,
}
use faryo_codex_web_ui.Base.Dict.{Dict, get}
use faryo_codex_web_ui.Base.Text.{rsplit, has_char}
use faryo_codex_web_ui.Base.Text.Rsplit.{rsplit-dot, rsplit_joined}
use faryo_codex_web_ui.Delivery.Record.{clean_client_message_id}
use faryo_codex_web_ui.Delivery.Store.{
  File, DeliveryStore, same_id, is_record_split, is_record_name, is_stale, sweep, cleanup,
}

-- The name is that of a record: a client's message id in its clean form, and ".json".
pub record RecordName (name : String) : Type 0 where
  pub id : String
  pub named : name ≡ id ++ ("." ++ "json")
  pub clean : clean_client_message_id id ≡ some id

-- A record's file that is a link, or was last modified longer ago than the time to live.
pub record StaleRecord (ttl now : ℕ) (name : String) (file : File) : Type 0 where
  pub is_record : RecordName name
  pub old : (file.is_symlink ≡ true) ⊎ (file.modified + ttl < now)

same_id-eq : (stem : String) (o : Option String) → same_id stem o ≡ true → o ≡ some stem
unfolding same_id
same_id-eq stem none h = cc h
same_id-eq stem (some id) h = ap some ((eq_iff id stem).0 h)

is_record_split-RecordName :
    (name : String) (o : Option (String × String))
    → rsplit b'.' name ≡ o
    → is_record_split o ≡ true
    → RecordName name
unfolding is_record_split
is_record_split-RecordName name none split h = cc h
is_record_split-RecordName name (some (stem, suffix)) split h =
    let is_json : str_eq suffix "json" ≡ true = ground arith in
    let is_clean : same_id stem (clean_client_message_id stem) ≡ true = ground arith in
    record {
      id = stem;
      named =
          rsplit_joined name stem suffix split
          ∙ ap (λ s. stem ++ ("." ++ s)) ((eq_iff suffix "json").0 is_json);
      clean = same_id-eq stem (clean_client_message_id stem) is_clean;
    }

is_record_name-id :
    (id : String)
    → clean_client_message_id id ≡ some id
    → is_record_name (id ++ ("." ++ "json")) ≡ true
unfolding is_record_name is_record_split same_id has_char
is_record_name-id id clean = rw (rsplit-dot id "json" refl, clean, eq_refl id) refl

is_stale-StaleRecord :
    (ttl now : ℕ) (name : String) (file : File)
    → is_stale ttl now name file ≡ true
    → StaleRecord ttl now name file
unfolding is_stale is_record_name
is_stale-StaleRecord ttl now name file h =
    let is_record : is_record_split (rsplit b'.' name) ≡ true = ground arith in
    record {
      is_record = is_record_split-RecordName name (rsplit b'.' name) refl is_record;
      old = elim (Bool-cases file.is_symlink) [
        | inl link ↦ inl link
        | inr plain ↦ inr (ground (arith, plain))
      ];
    }

StaleRecord-is_stale :
    (ttl now : ℕ) (name : String) (file : File)
    → StaleRecord ttl now name file
    → is_stale ttl now name file ≡ true
unfolding is_stale
StaleRecord-is_stale ttl now name file v =
    let is_record : is_record_name name ≡ true =
      ap is_record_name v.is_record.named ∙ is_record_name-id v.is_record.id v.is_record.clean in
    rw is_record (elim v.old [ inl link ↦ rw link refl | inr late ↦ ground arith ])

not_stale :
    (ttl now : ℕ) (name : String) (file : File)
    → ¬ StaleRecord ttl now name file
    → is_stale ttl now name file ≡ false
not_stale ttl now name file h = elim (Bool-cases (is_stale ttl now name file)) [
  | inl stale ↦ absurd (h (is_stale-StaleRecord ttl now name file stale))
  | inr fresh ↦ fresh
]

sweep_keeps :
    (ttl now : ℕ) (name : String) (file : File) (files : Dict File)
    → is_stale ttl now name file ≡ false
    → get name files ≡ some file
    → get name (sweep ttl now files) ≡ some file
unfolding sweep get
sweep_keeps ttl now name file [] fresh here = here
sweep_keeps ttl now name file ((n, g) ∷ files) fresh here =
    ground (arith, eq_iff n name, sweep_keeps ttl now name file files fresh)

sweep-Every :
    (ttl now : ℕ) (files : Dict File)
    → Every (λ entry. ¬ StaleRecord ttl now entry.0 entry.1) (sweep ttl now files)
unfolding sweep
sweep-Every ttl now [] = tt
sweep-Every ttl now ((n, g) ∷ files) = elim (Bool-cases (is_stale ttl now n g)) [
  | inl stale ↦ rw stale (sweep-Every ttl now files)
  | inr fresh ↦
      rw fresh
        ((λ v. cc (sym fresh ∙ StaleRecord-is_stale ttl now n g v)), sweep-Every ttl now files)
]

-- A cleanup that is forced or due, where the directory can be written: a file stays as it was unless it is a record
-- that is a link or older than the time to live, and no such record is left.
pub cleanup_lem :
    (now epoch : ℕ) (force : Bool) (s : DeliveryStore)
    → s.writable ≡ true
    → (not force && ltb now (s.cleanup_at + s.cleanup_interval_seconds)) ≡ false
    → ((name : String) (file : File)
        → ¬ StaleRecord s.ttl_seconds epoch name file
        → get name s.files ≡ some file
        → get name (cleanup now epoch force s).files ≡ some file)
      × Every
          (λ entry. ¬ StaleRecord s.ttl_seconds epoch entry.0 entry.1)
          (cleanup now epoch force s).files
unfolding cleanup
cleanup_lem now epoch force s writes due =
    rw (due, writes)
      (
        λ name file fresh here.
            sweep_keeps s.ttl_seconds epoch name file s.files
              (not_stale s.ttl_seconds epoch name file fresh) here,
        sweep-Every s.ttl_seconds epoch s.files,
      )
