-- ===== src/Prep/Samples.antt =====
-- Two frames and options of tcpprep for the tests.
use tcpreplay.Prelude.{
  inr, ℕ, ◌≢◌, refl, arith, true, false, List, [], ◌∷◌, ◌++◌, none, some, pos, inl, min, length,
  ◌==◌,
}
use tcpreplay.Cache.File.{Os}
use tcpreplay.Cache.File.Layout.{IsHonest}
use tcpreplay.Cidr.{Cidr, af_inet}
use tcpreplay.Cidr.V4.{IsWellFormed}
use tcpreplay.Filter.Laws.{source}
use tcpreplay.L2.{link_of, juniper_ether}
use tcpreplay.Tree.{RbTree, Node}
use tcpreplay.Prep.{Options, Mode, cidr_mode, auto_mode}
use tcpreplay.Prep.Ready.{IsReady, IsCaptured}

-- No host is found; the modes below do not ask.
abbrev pub hostless : RbTree
hostless = record {
  Tree = List Node;
  nodes = λ t. t;
  each = λ f t. t;
  find = λ t n. none;
  insert = λ t n. n ∷ t;
  change = λ t n f. t;
}

abbrev pub disk : Os
disk = record {
  write = λ file buffer. some (length buffer);
  read = λ rest n. some (min n (length rest));
}

pub disk-IsHonest : IsHonest disk
disk-IsHonest = record { writes_all = λ file buffer. refl; reads_all = λ rest n. refl }

-- An Ethernet frame from 02:00:00:00:00:06 with an IPv4 header from 10.0.0.1 to 10.0.0.2.
abbrev pub frame : List ℕ
frame =
    (1 ∷ 2 ∷ 3 ∷ 4 ∷ 5 ∷ 6 ∷ 2 ∷ 0 ∷ 0 ∷ 0 ∷ 0 ∷ 6 ∷ 0x08 ∷ 0 ∷ [])
    ++ (0x45 ∷ 0 ∷ 0 ∷ 20 ∷ 0 ∷ 0 ∷ 0 ∷ 0 ∷ 64 ∷ 6 ∷ 0 ∷ 0 ∷ 10 ∷ 0 ∷ 0 ∷ 1 ∷ 10 ∷ 0 ∷ 0 ∷ 2 ∷ [])

-- 10.0.0.0/8
abbrev pub ten : Cidr
ten = record { family = af_inet; network = 10; network6 = []; masklen = pos 8 }

abbrev pub options : Mode → List Cidr → Options
options mode filters = record {
  xx_mode = 1;
  xx_list = [];
  xx_cidr = filters;
  mode = mode;
  automode = auto_mode;
  cidrdata = ten ∷ [];
  maclist = b'2' ∷ [];
  tcp_services = λ p. false;
  udp_services = λ p. p == 53;
  nonip = false;
  reverse = true;
  preg4 = λ a. a == 10;
  preg6 = λ a. false;
  datalink = 1;
}

pub is_ethernet : link_of 1 ≢ juniper_ether
unfolding link_of
is_ethernet e = cc e

pub ten-IsWellFormed : IsWellFormed ten
ten-IsWellFormed = (8, refl, inl (refl, omega arith))

pub is_ready : IsReady (options cidr_mode (ten ∷ []))
is_ready = record {
  records = tt;
  link = is_ethernet;
  networks = ((ten-IsWellFormed, tt), tt);
  filters = ((ten-IsWellFormed, tt), tt);
  filter_mode = inr (source, inl refl);
}

pub captured : IsCaptured (options cidr_mode (ten ∷ [])) frame
captured = (omega arith, omega arith, λ e. cc e)
