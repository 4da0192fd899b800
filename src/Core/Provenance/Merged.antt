-- ===== src/Core/Provenance/Merged.antt =====
-- The reports of internal/core/provenance.go over a merged configuration and over two configurations.
use mathlib.Core.Bool.{true≢false}
use mathlib.Core.List.{cons-ne-nil}
use load_observatory.Prelude.{
  pos, ◌≤ℤ◌, ◌≡◌, refl, sym, subst, ap, ◌∙◌, ◌↔◌, if◌then◌else◌, Bool, true, false, ◌&&◌, ◌||◌, not,
  List, [], ◌∷◌, arith, Bool-cases, inl, inr, All,
}
use load_observatory.Prelude.Floats.{Floats}
use load_observatory.Core.Server.{ServerConfig}
use load_observatory.Core.Provenance.{
  Field, version, model, max_num_seqs, max_num_batched_tokens, gpu_memory_utilization, block_size,
  tensor_parallel_size, prefix_caching, chunked_prefill, provenance_fields, affects_ttft, Shown,
  blank, words, digits, hundredths, is_blank, eqb_shown, float_text, value, known_float,
  effective_server_config, conflicts_in, provenance_conflicts, gaps_in, provenance_gaps,
  differences_in, provenance_differences,
}
use load_observatory.Core.Provenance.Values.{
  eqb_shown→eq, eqb_shown_refl, as_text-known_text, int_text-known_int, is_blank-chosen, All-of,
  keep, none_affects,
}

module _ {F : Type 0} ⦃fl : Floats F⦄ where
  -- What a scrape yields: no negative number, and a float that is unset or above 0.
  pub record IsReported (config : ServerConfig F) : Type 0 where
    pub seqs : pos 0 ≤ℤ config.max_num_seqs
    pub batched : pos 0 ≤ℤ config.max_num_batched_tokens
    pub memory :
        fl.lt (fl.of_int (pos 0)) config.gpu_memory_utilization
        ≡ not (fl.eq config.gpu_memory_utilization (fl.of_int (pos 0)))
    pub block : pos 0 ≤ℤ config.block_size
    pub parallel : pos 0 ≤ℤ config.tensor_parallel_size

  float_text-known_float :
      (entered detected : F)
      → fl.lt (fl.of_int (pos 0)) detected ≡ not (fl.eq detected (fl.of_int (pos 0)))
      → float_text (known_float entered detected)
        ≡ (if is_blank (float_text detected) then float_text entered else float_text detected)
  unfolding known_float float_text
  float_text-known_float entered detected h =
      elim (Bool-cases (fl.eq detected (fl.of_int (pos 0)))) [
        | inl zero ↦ rw (h, zero) refl
        | inr there ↦ rw (h, there) (rw there refl)
      ]

  value-effective :
      (entered detected : ServerConfig F)
      → IsReported detected
      → (field : Field)
      → value field (effective_server_config entered detected)
        ≡ (if is_blank (value field detected) then value field entered else value field detected)
  unfolding value effective_server_config
  value-effective e d r version = as_text-known_text e.version d.version
  value-effective e d r model = as_text-known_text e.model d.model
  value-effective e d r max_num_seqs = int_text-known_int e.max_num_seqs d.max_num_seqs r.seqs
  value-effective e d r max_num_batched_tokens =
      int_text-known_int e.max_num_batched_tokens d.max_num_batched_tokens r.batched
  value-effective e d r gpu_memory_utilization =
      float_text-known_float e.gpu_memory_utilization d.gpu_memory_utilization r.memory
  value-effective e d r block_size = int_text-known_int e.block_size d.block_size r.block
  value-effective e d r tensor_parallel_size =
      int_text-known_int e.tensor_parallel_size d.tensor_parallel_size r.parallel
  value-effective e d r prefix_caching = as_text-known_text e.prefix_caching d.prefix_caching
  value-effective e d r chunked_prefill = as_text-known_text e.chunked_prefill d.chunked_prefill

  conflicts-effective :
      (entered detected : ServerConfig F)
      → IsReported detected
      → (fields : List Field)
      → conflicts_in fields entered (effective_server_config entered detected)
        ≡ conflicts_in fields entered detected
  unfolding conflicts_in
  conflicts-effective e d r [] = refl
  conflicts-effective e d r (field ∷ rest) =
      rw (value-effective e d r field, conflicts-effective e d r rest)
        (same (value field e) (value field d))
    where
      same :
          (mine theirs : Shown)
          → let shown = if is_blank theirs then mine else theirs in
            (if is_blank mine || is_blank shown || eqb_shown mine shown
              then conflicts_in rest e d
              else (field, mine, shown) ∷ conflicts_in rest e d)
            ≡ (if is_blank mine || is_blank theirs || eqb_shown mine theirs
                then conflicts_in rest e d
                else (field, mine, theirs) ∷ conflicts_in rest e d)
      same mine blank = rw (eqb_shown_refl mine) (ground arith)
      same mine (words a) = refl
      same mine (digits a) = refl
      same mine (hundredths a) = refl

  agreed-effective :
      (entered detected : ServerConfig F)
      → IsReported detected
      → (fields : List Field)
      → conflicts_in fields detected (effective_server_config entered detected) ≡ []
  unfolding conflicts_in
  agreed-effective e d r [] = refl
  agreed-effective e d r (field ∷ rest) =
      rw (value-effective e d r field, agreed-effective e d r rest)
        (agreed (value field e) (value field d))
    where
      agreed :
          (mine theirs : Shown)
          → let shown = if is_blank theirs then mine else theirs in
            let found : List (Field × Shown × Shown) =
              if is_blank theirs || is_blank shown || eqb_shown theirs shown
              then []
              else (field, theirs, shown) ∷ [] in
            found ≡ []
      agreed mine blank = refl
      agreed mine (words a) = rw (eqb_shown_refl (words a)) refl
      agreed mine (digits a) = rw (eqb_shown_refl (digits a)) refl
      agreed mine (hundredths a) = rw (eqb_shown_refl (hundredths a)) refl

  -- For what the server reported, with no negative number: the merged configuration shows in every
  -- field what the server reported, or what the operator entered where the server reported nothing; it
  -- has the same conflicts with the operator's entry as the report has, and none with the report.
  pub effective_server_config-Settled :
      (entered detected : ServerConfig F)
      → IsReported detected
      → let merged = effective_server_config entered detected in
        ((field : Field)
          → value field merged ≡ (
              if is_blank (value field detected)
              then value field entered
              else value field detected))
        × (provenance_conflicts entered merged ≡ provenance_conflicts entered detected)
        × (provenance_conflicts detected merged ≡ [])
  unfolding provenance_conflicts
  effective_server_config-Settled e d r = (
    value-effective e d r,
    conflicts-effective e d r provenance_fields,
    agreed-effective e d r provenance_fields,
  )

  gaps-effective :
      (entered detected : ServerConfig F)
      → IsReported detected
      → (fields : List Field) (comparable : Bool)
      → let both = keep (λ f. is_blank (value f entered) && is_blank (value f detected)) fields in
        gaps_in fields (effective_server_config entered detected) comparable
        ≡ (both, (if none_affects both then comparable else false))
  unfolding gaps_in
  gaps-effective e d r [] comparable = refl
  gaps-effective e d r (field ∷ rest) comparable =
      let unknown = is_blank (value field e) && is_blank (value field d) in
      rw
        (
          value-effective e d r field,
          is_blank-chosen (value field e) (value field d),
          gaps-effective e d r rest (if unknown && affects_ttft field then false else comparable),
        )
        (split unknown (keep (λ f. is_blank (value f e) && is_blank (value f d)) rest))
    where
      split :
          (unknown : Bool) (gaps : List Field)
          → let more = if unknown then field ∷ gaps else gaps in
            let left : List Field × Bool = (
              more,
              if none_affects gaps
                  then (if unknown && affects_ttft field then false else comparable)
                  else false,
            ) in
            let right : List Field × Bool =
              (more, if none_affects more then comparable else false) in
            left ≡ right
      split true gaps = ap (λ b. (field ∷ gaps, b)) (ground arith)
      split false gaps = refl

  differences_in-empty :
      (left right : ServerConfig F) (fields : List Field)
      → (differences_in fields left right ≡ [])
        ↔ All (λ field. value field left ≡ value field right) fields
  unfolding differences_in
  differences_in-empty left right [] = (λ e. tt, λ h. refl)
  differences_in-empty left right (field ∷ rest) =
      elim (Bool-cases (eqb_shown (value field left) (value field right))) [
        | inl same ↦ rw same (
          λ e. (eqb_shown→eq _ _ same, (differences_in-empty left right rest).0 e),
          λ h. (differences_in-empty left right rest).1 h.1,
        )
        | inr differ ↦ rw differ (
          λ e. absurd (cons-ne-nil _ _ e),
          λ h. absurd (
              true≢false (
                sym (eqb_shown_refl (value field left))
                ∙ subst (λ v. eqb_shown (value field left) v ≡ false) (sym h.0) differ)),
        )
      ]

  -- ProvenanceDifferences is empty exactly when the two configurations show the same in every field.
  provenance_differences-empty :
      (left right : ServerConfig F)
      → (provenance_differences left right ≡ [])
        ↔ ((field : Field) → value field left ≡ value field right)
  unfolding provenance_differences
  provenance_differences-empty left right =
      let (forth, back) = differences_in-empty left right provenance_fields in
      (λ e. each (forth e), λ h. back (All-of h provenance_fields))
    where
      each :
          All (λ field. value field left ≡ value field right) provenance_fields
          → (field : Field) → value field left ≡ value field right
      each h version = h.0
      each h model = h.1.0
      each h max_num_seqs = h.1.1.0
      each h max_num_batched_tokens = h.1.1.1.0
      each h gpu_memory_utilization = h.1.1.1.1.0
      each h block_size = h.1.1.1.1.1.0
      each h tensor_parallel_size = h.1.1.1.1.1.1.0
      each h prefix_caching = h.1.1.1.1.1.1.1.0
      each h chunked_prefill = h.1.1.1.1.1.1.1.1.0

  -- For what the server reported, with no negative number: the gaps of the merged configuration are the
  -- fields that neither the operator nor the server gave, in order, and the TTFT is comparable exactly if
  -- none of these affects it.
  pub provenance_gaps-Both :
      (entered detected : ServerConfig F)
      → IsReported detected
      → let both =
          keep (λ f. is_blank (value f entered) && is_blank (value f detected)) provenance_fields in
        provenance_gaps (effective_server_config entered detected) ≡ (both, none_affects both)
  unfolding provenance_gaps
  provenance_gaps-Both e d r =
      let both : List Field =
        keep (λ f. is_blank (value f e) && is_blank (value f d)) provenance_fields in
      gaps-effective e d r provenance_fields true ∙ ap (λ b. (both, b)) (itself (none_affects both))
    where
      itself : (b : Bool) → (if b then true else false) ≡ b
      itself b = ground arith
