-- ===== src/Common/Answers.antt =====
-- pkg/common/netbox.go: the answers to the requests for tagged addresses.
use machinecfg.Prelude.{String, ◌==◌, nat_eq, arith}
use machinecfg.Effect.{Reply, good, bad}
use machinecfg.Effect.Meets.{
  Meets, Meets-pure, Meets-bind, Meets-attempt, Meets-if, Meets-answered, Anything, AnswersIn,
  ask-Meets,
}
use machinecfg.Netbox.Pages.{IsShown, AnswersPrefixes, first-Meets}
use machinecfg.Netbox.{Netbox, Page, Prefix, IpAddress}
use machinecfg.Common.{
  get_tagged_addresses_from_prefix, get_tagged_addresses_from_prefix_of_addr, in_first_prefix,
  addresses_of_reply,
}

module _ (N : Netbox) where
  pub get_tagged_addresses_from_prefix-Meets :
      {E : Type 0} (tag : String) (prefix : Prefix)
      → Meets E Anything (get_tagged_addresses_from_prefix N tag prefix)
  unfolding get_tagged_addresses_from_prefix
  get_tagged_addresses_from_prefix-Meets {E} tag prefix =
      Meets-bind _ _ (Meets-attempt E _ (ask-Meets _)) λ r _. answered r
    where
      answered : (r : Reply (Page IpAddress)) → Meets E Anything (addresses_of_reply N r)
      answered (good page) = Meets-pure _ tt
      answered (bad e) = Meets-pure _ tt

  module _ (answers : AnswersPrefixes N) where
    in_first_prefix-Meets :
        (tag : String) (r : Reply (Page Prefix))
        → AnswersIn IsShown r
        → Meets Unit Anything (in_first_prefix N tag r)
    in_first_prefix-Meets tag (bad e) shown = absurd shown
    in_first_prefix-Meets tag (good page) shown =
        Meets-if (page.count == 0) _ _ (λ _. Meets-pure _ tt)
          λ some_page.
            Meets-bind _ _ (first-Meets page (ground (arith, some_page)) shown)
              λ prefix _. get_tagged_addresses_from_prefix-Meets tag prefix

    pub get_tagged_addresses_from_prefix_of_addr-Meets :
        (tag address : String)
        → Meets Unit Anything (get_tagged_addresses_from_prefix_of_addr N tag address)
    unfolding get_tagged_addresses_from_prefix_of_addr
    get_tagged_addresses_from_prefix_of_addr-Meets tag address =
        Meets-bind _ _ (Meets-answered Unit _ (answers _)) (in_first_prefix-Meets tag)
