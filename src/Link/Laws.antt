-- ===== src/Link/Laws.antt =====
-- What an update of a link does to the links that share its object.
use hubble_ui.Prelude.{◌≡◌, ◌+◌, refl, arith}
use hubble_ui.Link.{
  Heap, Link, HubbleLink, clone, accumulate, update_with_hubble_link, throughput, from_hubble_link,
}

-- An update returns a new link and still changes the counters of the old one: both refer to the
-- object whose counters grow by those of the given link.
throughput-update :
    (heap : Heap) (l : Link) (hl : HubbleLink)
    → let (updated, heap') = update_with_hubble_link heap l hl in
      (throughput heap' l ≡ throughput heap' updated)
      × ((throughput heap' l).flow_amount
          ≡ (throughput heap l).flow_amount + (heap hl.address).flow_amount)
      × ((throughput heap' l).bytes_transfered
          ≡ (throughput heap l).bytes_transfered + (heap hl.address).bytes_transfered)
unfolding update_with_hubble_link throughput accumulate clone from_hubble_link
throughput-update heap l hl = (refl, ground arith, ground arith)
