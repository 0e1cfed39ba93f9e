-- ===== src/Agent/Isolated/Calls.antt =====
-- No method of the loader fills the path cache of the ingress program.
use cilion.Base.{codes, ℕ, ◌≢◌, sym, ◌∙◌, ap, Bytes, List, [], ◌∷◌, Option, none, some}
use cilion.Effect.{wrap, Result, ok, err, Exec, continue-keeps, world}
use cilion.Bpf.Types.{ScionPathEntry, Endian, ip_to_key}
use cilion.Bpf.Kernel.{
  Kernel, Objects, Qdisc, BpfFilter, Filter, bpf_filter, other_filter, errors_is, eexist,
  handle_min_egress,
}
use cilion.Bpf.Loader.{
  dropping, Host, in_kernel, is_tc_egress, clsact, egress_filter, close_all, close_objects,
  add_filter, on_qdisc_error, ensure_qdisc, attach_tc, delete_filters, detach_tc, forget_link,
  keep_link, attach_link, attach_xdp, update_pod_policy, delete_pod_policy, update_scion_path,
  delete_scion_path, close_link, close_tc_objects, close_xdp_objects, close,
}
use cilion.Agent.{
  MapView, Step, attaching_tc, detaching_tc, attaching_xdp, updating_pod_policy,
  deleting_pod_policy, updating_scion_path, deleting_scion_path, closing, Reach, here, later,
}
use cilion.Agent.Isolated.{IsEmpty, IsFilledByPuts, Isolated}
use cilion.Agent.Isolated.Keeps.{
  Keeps, kernel-Keeps, catch-Keeps, bind-Keeps, if-Keeps, done-Keeps, failing-Keeps,
}

module _ (K : Kernel) (V : MapView K) (F : IsFilledByPuts K V) (order : Endian) (tc xdp : Objects)
    (apart : tc.scion_path_cache ≢ xdp.scion_path_cache) where
  abbrev Keeping : {A : Type 0} → Exec (Host K) A → Type 0
  Keeping m = Keeps K V tc xdp m

  abbrev cache : Option ℕ
  cache = xdp.scion_path_cache

  close_handle-Keeps : (c : Option ℕ) → Keeping (in_kernel K (K.close_handle c))
  close_handle-Keeps c = kernel-Keeps (K.close_handle c) (F.close_keeps cache c)

  program_fd-Keeps : (c : Option ℕ) → Keeping (in_kernel K (K.program_fd c))
  program_fd-Keeps c = kernel-Keeps (K.program_fd c) (F.fd_keeps cache c)

  map_put_policy-Keeps :
      (n : Option ℕ) (key value : ℕ) → Keeping (in_kernel K (K.map_put_policy n key value))
  map_put_policy-Keeps n key value =
      kernel-Keeps (K.map_put_policy n key value) (F.policy_keeps cache n key value)

  map_delete-Keeps : (n : Option ℕ) (key : ℕ) → Keeping (in_kernel K (K.map_delete n key))
  map_delete-Keeps n key = kernel-Keeps (K.map_delete n key) (F.delete_keeps cache n key)

  link_by_name-Keeps : (name : Bytes) → Keeping (in_kernel K (K.link_by_name name))
  link_by_name-Keeps name = kernel-Keeps (K.link_by_name name) (F.link_keeps cache name)

  qdisc_add-Keeps : (q : Qdisc) → Keeping (in_kernel K (K.qdisc_add q))
  qdisc_add-Keeps q = kernel-Keeps (K.qdisc_add q) (F.qdisc_keeps cache q)

  filter_add-Keeps : (f : BpfFilter) → Keeping (in_kernel K (K.filter_add f))
  filter_add-Keeps f = kernel-Keeps (K.filter_add f) (F.filter_keeps cache f)

  filter_list-Keeps : (index parent : ℕ) → Keeping (in_kernel K (K.filter_list index parent))
  filter_list-Keeps index parent =
      kernel-Keeps (K.filter_list index parent) (F.list_keeps cache index parent)

  filter_del-Keeps : (f : BpfFilter) → Keeping (in_kernel K (K.filter_del f))
  filter_del-Keeps f = kernel-Keeps (K.filter_del f) (F.filter_del_keeps cache f)

  attach_link_call-Keeps : (c : Option ℕ) (index : ℕ) → Keeping (in_kernel K (K.attach_xdp c index))
  attach_link_call-Keeps c index =
      kernel-Keeps (K.attach_xdp c index) (F.attach_keeps cache c index)

  add_filter-Keeps : (name : Bytes) (index : ℕ) → Keeping (add_filter K name index)
  unfolding add_filter
  add_filter-Keeps name index = record {
    run = λ s h.
        (bind-Keeps _ _ (program_fd-Keeps s.loader.tc_objs.program) λ fd.
            catch-Keeps _ _ _ (filter_add-Keeps (egress_filter K index fd))
              (λ e. failing-Keeps (wrap (codes "AttachTC: add BPF filter on %q: %w") (name ∷ []) e))
              (λ (a : Unit {0}). done-Keeps (ok a))).run
          s h;
  }

  ensure_qdisc-Keeps : (name : Bytes) (index : ℕ) → Keeping (ensure_qdisc K name index)
  unfolding ensure_qdisc on_qdisc_error
  ensure_qdisc-Keeps name index =
      catch-Keeps _ _ _ (qdisc_add-Keeps (clsact K index))
        (λ e. if-Keeps (errors_is e eexist) _ _ (add_filter-Keeps name index) (failing-Keeps _))
        (λ a. add_filter-Keeps name index)

  attach_tc-Keeps : (name : Bytes) → Keeping (attach_tc K name)
  unfolding attach_tc
  attach_tc-Keeps name =
      catch-Keeps _ _ _ (link_by_name-Keeps name) (λ e. failing-Keeps _) (ensure_qdisc-Keeps name)

  delete_filters-Keeps : (name : Bytes) (l : List Filter) → Keeping (delete_filters K name l)
  unfolding delete_filters
  delete_filters-Keeps name [] = done-Keeps _
  delete_filters-Keeps name (other_filter n ∷ l) = delete_filters-Keeps name l
  delete_filters-Keeps name (bpf_filter f ∷ l) =
      if-Keeps (is_tc_egress (bpf_filter f)) _ _
        (catch-Keeps _ _ _ (filter_del-Keeps f) (λ e. failing-Keeps _)
          (λ _. delete_filters-Keeps name l))
        (delete_filters-Keeps name l)

  detach_tc-Keeps : (name : Bytes) → Keeping (detach_tc K name)
  unfolding detach_tc
  detach_tc-Keeps name =
      catch-Keeps _ _ _ (link_by_name-Keeps name) (λ e. failing-Keeps _)
        λ index.
          catch-Keeps _ _ _ (filter_list-Keeps index handle_min_egress) (λ e. failing-Keeps _)
            (delete_filters-Keeps name)

  link-Keeps :
      {A : Type 0} (r : Result A) (l : Option ℕ)
      → Keeping (λ s. (r, record s { loader = record s.loader { xdp_link = l } }))
  link-Keeps r l = record {
    run = λ s h. record { tc_held = h.tc_held; xdp_held = h.xdp_held; empty = h.empty };
  }

  attach_xdp-Keeps : (name : Bytes) → Keeping (attach_xdp K name)
  unfolding attach_xdp attach_link forget_link keep_link
  attach_xdp-Keeps name =
      catch-Keeps _ _ _ (link_by_name-Keeps name) (λ e. failing-Keeps _)
        λ index. record {
          run = λ s h.
              (catch-Keeps _ _ _ (attach_link_call-Keeps s.loader.xdp_objs.program index)
                  (λ e.
                    link-Keeps {A = Unit {0}}
                      (err (wrap (codes "AttachXDP: attach to %q: %w") (name ∷ []) e)) none)
                  (λ l. link-Keeps (ok tt) (some l))).run
                s h;
        }

  update_pod_policy-Keeps :
      (ip : Bytes) (policy : ℕ) → Keeping (update_pod_policy K order ip policy)
  unfolding update_pod_policy
  update_pod_policy-Keeps ip policy = record {
    run = λ s h.
        (bind-Keeps _ _ (done-Keeps (ip_to_key order ip))
            λ key. map_put_policy-Keeps s.loader.tc_objs.pod_policy_map key policy).run
          s h;
  }

  delete_pod_policy-Keeps : (ip : Bytes) → Keeping (delete_pod_policy K order ip)
  unfolding delete_pod_policy
  delete_pod_policy-Keeps ip = record {
    run = λ s h.
        (bind-Keeps _ _ (done-Keeps (ip_to_key order ip))
            λ key. map_delete-Keeps s.loader.tc_objs.pod_policy_map key).run
          s h;
  }

  update_scion_path-Keeps :
      (policy : ℕ) (entry : ScionPathEntry) → Keeping (update_scion_path K policy entry)
  unfolding update_scion_path
  update_scion_path-Keeps policy entry = record {
    run = λ s h.
        (kernel-Keeps (K.map_put_path s.loader.tc_objs.scion_path_cache policy entry) (λ w.
            F.path_keeps cache s.loader.tc_objs.scion_path_cache policy entry w
              λ e. apart (ap (λ (o : Objects). o.scion_path_cache) (sym h.tc_held) ∙ e))).run
          s h;
  }

  delete_scion_path-Keeps : (policy : ℕ) → Keeping (delete_scion_path K policy)
  unfolding delete_scion_path
  delete_scion_path-Keeps policy = record {
    run = λ s h. (map_delete-Keeps s.loader.tc_objs.scion_path_cache policy).run s h;
  }

  close_all-keeps :
      (cs : List (Option ℕ)) (w : K.World)
      → IsEmpty K V xdp.scion_path_cache w
      → IsEmpty K V xdp.scion_path_cache (world (close_all K cs w))
  unfolding close_all
  close_all-keeps [] w h = h
  close_all-keeps (c ∷ cs) w h =
      continue-keeps (IsEmpty K V xdp.scion_path_cache) (λ (_ : Unit {0}). close_all K cs)
        (K.close_handle c w) (F.close_keeps _ c w h) (λ _ e. close_all-keeps cs)

  close_link-Keeps : (l : Option ℕ) → Keeping (close_link K l)
  unfolding close_link
  close_link-Keeps none = done-Keeps _
  close_link-Keeps (some l) = close_handle-Keeps (some l)

  dropping-Keeps :
      (m k : Exec (Host K) (Unit {0})) → Keeping m → Keeping k → Keeping (dropping K m k)
  dropping-Keeps m k km kk = catch-Keeps m _ _ km (λ e. kk) (λ a. kk)

  close_objects-Keeps : (o : Objects) → Keeping (in_kernel K (close_objects K o))
  unfolding close_objects
  close_objects-Keeps o = kernel-Keeps (close_objects K o) (close_all-keeps _)

  close_xdp_objects-Keeps : Keeping (close_xdp_objects K)
  unfolding close_xdp_objects
  close_xdp_objects-Keeps = record {
    run = λ s h.
        (dropping-Keeps _ _ (close_objects-Keeps s.loader.xdp_objs) (done-Keeps (ok tt))).run s h;
  }

  close_tc_objects-Keeps : Keeping (close_tc_objects K)
  unfolding close_tc_objects
  close_tc_objects-Keeps = record {
    run = λ s h.
        (dropping-Keeps _ _ (close_objects-Keeps s.loader.tc_objs) close_xdp_objects-Keeps).run s h;
  }

  close-Keeps : Keeping (close K)
  unfolding close
  close-Keeps = record {
    run = λ s h.
        (dropping-Keeps _ _ (close_link-Keeps s.loader.xdp_link) close_tc_objects-Keeps).run s h;
  }

  -- No call of a method fills the cache of the ingress program.
  Step-Isolated : {s t : Host K} → Step K order s t → Isolated K V tc xdp s → Isolated K V tc xdp t
  Step-Isolated (attaching_tc name s) h = (attach_tc-Keeps name).run s h
  Step-Isolated (detaching_tc name s) h = (detach_tc-Keeps name).run s h
  Step-Isolated (attaching_xdp name s) h = (attach_xdp-Keeps name).run s h
  Step-Isolated (updating_pod_policy ip policy s) h = (update_pod_policy-Keeps ip policy).run s h
  Step-Isolated (deleting_pod_policy ip s) h = (delete_pod_policy-Keeps ip).run s h
  Step-Isolated (updating_scion_path policy entry s) h =
      (update_scion_path-Keeps policy entry).run s h
  Step-Isolated (deleting_scion_path policy s) h = (delete_scion_path-Keeps policy).run s h
  Step-Isolated (closing s) h = close-Keeps.run s h

  pub Reach-Isolated :
      {start s : Host K} → Isolated K V tc xdp start → Reach K order start s → Isolated K V tc xdp s
  Reach-Isolated h here = h
  Reach-Isolated h (later r st) = Step-Isolated st (Reach-Isolated h r)
