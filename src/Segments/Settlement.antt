-- ===== src/Segments/Settlement.antt =====
-- openwhisk/energySegments.go: segmentedAttribution.
use openwhisk_runtime_go.Base.{ℕ, List, [], ◌∷◌, if◌then◌else◌}
use openwhisk_runtime_go.Base.Int64
use openwhisk_runtime_go.Attribution.{
  Platform, CpuSnapshot, AttributionBreakdown, no_attribution, attribution_detail, capped_ratio,
}
use openwhisk_runtime_go.Segments.Marks.{FreezeMark}

module _ (p : Platform) where
  -- The closure `add`; the ratio of `total` stays that of AttributionBreakdown{}.
  unfoldable pub add_segment :
      AttributionBreakdown p → AttributionBreakdown p → AttributionBreakdown p
  add_segment total d = record total {
    attributed_uj = Int64.add total.attributed_uj d.attributed_uj;
    delta_process_usec = Int64.add total.delta_process_usec d.delta_process_usec;
    capacity_usec = Int64.add total.capacity_usec d.capacity_usec;
  }

  -- The loop over the marks, from the start of the current segment, and the last segment.
  unfoldable pub segments :
      ℕ
      → CpuSnapshot
      → AttributionBreakdown p
      → List FreezeMark
      → ℕ
      → CpuSnapshot
      → AttributionBreakdown p
  segments cur_energy cur_cpu total [] energy_end snap_end =
      add_segment total (attribution_detail p cur_energy energy_end cur_cpu snap_end)
  segments cur_energy cur_cpu total (m ∷ ms) energy_end snap_end =
      let closed =
        add_segment total
          (attribution_detail p cur_energy m.freeze_energy_uj cur_cpu m.freeze_cpu) in
      let rest = segments m.resume_energy_uj m.resume_cpu closed ms energy_end snap_end in
      if m.resumed then rest else closed

  unfoldable pub with_ratio : AttributionBreakdown p → AttributionBreakdown p
  with_ratio total =
      if Int64.lt 0 total.capacity_usec
      then record total { cpu_ratio = capped_ratio p total.delta_process_usec total.capacity_usec }
      else total

  unfoldable pub segmented_attribution :
      ℕ → ℕ → CpuSnapshot → CpuSnapshot → List FreezeMark → AttributionBreakdown p
  segmented_attribution energy_start energy_end snap_start snap_end [] =
      attribution_detail p energy_start energy_end snap_start snap_end
  segmented_attribution energy_start energy_end snap_start snap_end (m ∷ ms) =
      with_ratio (segments energy_start snap_start (no_attribution p) (m ∷ ms) energy_end snap_end)
