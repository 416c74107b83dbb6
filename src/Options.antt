-- ===== src/Options.antt =====
-- The cursors over the display options: cmd/options.go. The list of panels, which are Prometheus
-- queries, is not written out.
pub mod Cursor
use network_observability_cl.Base.{
  ℕ, ◌+◌, ◌-◌, ◌%◌, String, Bool, Option, none, some, List, [], ◌∷◌, length, get_elem?, ◌==◌,
  if◌then◌else◌,
}

pub record OptionItem : Type 0 where
  pub name : String
  pub ids : List String

pub record OptionList : Type 0 where
  pub all : List OptionItem
  pub current : ℕ

-- none is the panic on an index out of range.
unfoldable pub get_current_item : OptionList → Option OptionItem
get_current_item opt = get_elem? opt.all opt.current

-- The remainder by the number of items; none is the panic of a division by zero.
abbrev pub moved_to : ℕ → OptionList → Option OptionList
moved_to i opt =
    if length opt.all == 0 then none else some (record opt { current = i % length opt.all })

unfoldable pub prev : OptionList → Option OptionList
prev opt = moved_to (opt.current + (length opt.all - 1)) opt

unfoldable pub next : OptionList → Option OptionList
next opt = moved_to (opt.current + 1) opt

abbrev pub display_items : List OptionItem
display_items =
    record { name = "Raw"; ids = [] }
    ∷ record { name = "Standard"; ids = [] }
    ∷ record { name = "Packet drops"; ids = "pktDrop" ∷ [] }
    ∷ record { name = "DNS"; ids = "dnsTracking" ∷ [] }
    ∷ record { name = "RTT"; ids = "flowRTT" ∷ [] }
    ∷ record { name = "Network events"; ids = "networkEvents" ∷ [] }
    ∷ record { name = "Packet translation"; ids = "packetTranslation" ∷ [] }
    ∷ record { name = "UDN mapping"; ids = "udnMapping" ∷ [] }
    ∷ record { name = "IPSec"; ids = "ipsec" ∷ [] }
    ∷ record {
      name = "All";
      ids =
          "pktDrop" ∷ "dnsTracking" ∷ "flowRTT" ∷ "networkEvents" ∷ "packetTranslation"
          ∷ "udnMapping" ∷ "ipsec" ∷ [];
    }
    ∷ []

abbrev pub display : OptionList
display = record { all = display_items; current = 1 }

abbrev pub enrichment_items : List OptionItem
enrichment_items =
    record { name = "None"; ids = [] }
    ∷ record { name = "IP & Port"; ids = "SrcAddr" ∷ "SrcPort" ∷ "DstAddr" ∷ "DstPort" ∷ [] }
    ∷ record { name = "Cluster"; ids = "ClusterName" ∷ [] }
    ∷ record { name = "Zone"; ids = "SrcZone" ∷ "DstZone" ∷ [] }
    ∷ record {
      name = "Host";
      ids =
          "SrcK8S_HostIP" ∷ "DstK8S_HostIP" ∷ "SrcK8S_HostName" ∷ "DstK8S_HostName"
          ∷ "FlowDirection" ∷ [];
    }
    ∷ record { name = "Namespace"; ids = "SrcK8S_Namespace" ∷ "DstK8S_Namespace" ∷ [] }
    ∷ record {
      name = "Owner";
      ids =
          "SrcK8S_OwnerType" ∷ "DstK8S_OwnerType" ∷ "SrcK8S_OwnerName" ∷ "DstK8S_OwnerName"
          ∷ "SrcK8S_Namespace" ∷ "DstK8S_Namespace" ∷ [];
    }
    ∷ record {
      name = "Resource";
      ids =
          "SrcK8S_Type" ∷ "DstK8S_Type" ∷ "SrcK8S_Name" ∷ "DstK8S_Name" ∷ "SrcK8S_Namespace"
          ∷ "DstK8S_Namespace" ∷ [];
    }
    ∷ record { name = "Subnet Label"; ids = "SrcSubnetLabel" ∷ "DstSubnetLabel" ∷ [] }
    ∷ record { name = "Network Name"; ids = "SrcNetworkName" ∷ "DstNetworkName" ∷ [] }
    ∷ record {
      name = "All";
      ids =
          "ClusterName" ∷ "SrcZone" ∷ "DstZone" ∷ "SrcK8S_HostIP" ∷ "DstK8S_HostIP"
          ∷ "SrcK8S_HostName" ∷ "DstK8S_HostName" ∷ "SrcK8S_Namespace" ∷ "DstK8S_Namespace"
          ∷ "SrcK8S_OwnerType" ∷ "DstK8S_OwnerType" ∷ "SrcK8S_OwnerName" ∷ "DstK8S_OwnerName"
          ∷ "SrcK8S_Type" ∷ "DstK8S_Type" ∷ "SrcK8S_Name" ∷ "DstK8S_Name" ∷ "SrcSubnetLabel"
          ∷ "DstSubnetLabel" ∷ "SrcNetworkName" ∷ "DstNetworkName" ∷ [];
    }
    ∷ []

abbrev pub enrichment : OptionList
enrichment = record { all = enrichment_items; current = 7 }
