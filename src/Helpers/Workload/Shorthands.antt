-- ===== src/Helpers/Workload/Shorthands.antt =====
-- The table of src/domain/helpers/workload.ts. The key "events" stands twice, with one value.
use hubble_ui.Prelude.{List, [], ◌∷◌, Str, codes}

unfoldable pub k8s_shorthands : List (Str × Str)
k8s_shorthands =
    (codes "componentstatuses", codes "cs")
    ∷ (codes "componentstatus", codes "cs")
    ∷ (codes "configmaps", codes "cm")
    ∷ (codes "configmap", codes "cm")
    ∷ (codes "endpoints", codes "ep")
    ∷ (codes "endpoint", codes "ep")
    ∷ (codes "events", codes "ev")
    ∷ (codes "limitranges", codes "limits")
    ∷ (codes "namespaces", codes "ns")
    ∷ (codes "namespace", codes "ns")
    ∷ (codes "nodes", codes "no")
    ∷ (codes "persistentvolumeclaims", codes "pvc")
    ∷ (codes "persistentvolumes", codes "pv")
    ∷ (codes "pods", codes "po")
    ∷ (codes "pod", codes "po")
    ∷ (codes "replicationcontrollers", codes "rc")
    ∷ (codes "resourcequotas", codes "quota")
    ∷ (codes "serviceaccounts", codes "sa")
    ∷ (codes "services", codes "svc")
    ∷ (codes "service", codes "svc")
    ∷ (codes "customresourcedefinitions", codes "crd")
    ∷ (codes "customresourcedefinition", codes "crd")
    ∷ (codes "daemonset", codes "ds")
    ∷ (codes "daemonsets", codes "ds")
    ∷ (codes "deployment", codes "deploy")
    ∷ (codes "deployments", codes "deploy")
    ∷ (codes "dep", codes "deploy")
    ∷ (codes "replicasets", codes "rs")
    ∷ (codes "replicaset", codes "rs")
    ∷ (codes "statefulsets", codes "sts")
    ∷ (codes "statefulset", codes "sts")
    ∷ (codes "horizontalpodautoscalers", codes "hpa")
    ∷ (codes "cronjobs", codes "cj")
    ∷ (codes "cronjob", codes "cj")
    ∷ (codes "certificaterequests", codes "cr,crs")
    ∷ (codes "certificates", codes "cert")
    ∷ (codes "certificate", codes "cert")
    ∷ (codes "certificatesigningrequests", codes "csr")
    ∷ (codes "ciliumcidrgroups", codes "ccg")
    ∷ (codes "ciliumclusterwideenvoyconfigs", codes "ccec")
    ∷ (codes "ciliumclusterwidenetworkpolicies", codes "ccnp")
    ∷ (codes "ciliumendpoints", codes "cep")
    ∷ (codes "ciliumep", codes "cep")
    ∷ (codes "ciliumenvoyconfigs", codes "cec")
    ∷ (codes "ciliumexternalworkloads", codes "cew")
    ∷ (codes "ciliumidentities", codes "ciliumid")
    ∷ (codes "ciliumloadbalancerippools", codes "ippool")
    ∷ (codes "ippools", codes "ippool")
    ∷ (codes "lbippool", codes "ippool")
    ∷ (codes "lbippools", codes "ippool")
    ∷ (codes "ciliumnetworkpolicies", codes "cnp")
    ∷ (codes "cnps", codes "cnp")
    ∷ (codes "ciliumnodes", codes "cn")
    ∷ (codes "ciliumn", codes "cn")
    ∷ (codes "clickhouseinstallations", codes "chi")
    ∷ (codes "clickhouseinstallationtemplates", codes "chit")
    ∷ (codes "clickhouseoperatorconfigurations", codes "chopconf")
    ∷ (codes "backendconfigs", codes "bc")
    ∷ (codes "strimzipodsets", codes "sps")
    ∷ (codes "events", codes "ev")
    ∷ (codes "capacityrequests", codes "capreq")
    ∷ (codes "isovalentfqdngroups", codes "ifg")
    ∷ (codes "kafkabridges", codes "kb")
    ∷ (codes "kafkabridge", codes "kb")
    ∷ (codes "kafkaconnectors", codes "kctr")
    ∷ (codes "kafkaconnects", codes "kc")
    ∷ (codes "kafkamirrormaker2s", codes "kmm2")
    ∷ (codes "kafkamirrormakers", codes "kmm")
    ∷ (codes "kafkarebalances", codes "kr")
    ∷ (codes "kafkas", codes "k")
    ∷ (codes "kafka", codes "k")
    ∷ (codes "kafkatopics", codes "kt")
    ∷ (codes "kafkatopic", codes "kt")
    ∷ (codes "kafkausers", codes "ku")
    ∷ (codes "tenants", codes "tenant")
    ∷ (codes "alertmanagerconfigs", codes "amcfg")
    ∷ (codes "alertmanagers", codes "am")
    ∷ (codes "podmonitors", codes "pmon")
    ∷ (codes "probes", codes "prb")
    ∷ (codes "prometheusagents", codes "promagent")
    ∷ (codes "prometheuses", codes "prom")
    ∷ (codes "prometheus", codes "prom")
    ∷ (codes "prometheusrules", codes "promrule")
    ∷ (codes "scrapeconfigs", codes "scfg")
    ∷ (codes "servicemonitors", codes "smon")
    ∷ (codes "thanosrulers", codes "ruler")
    ∷ (codes "managedcertificates", codes "mcrt")
    ∷ (codes "servicenetworkendpointgroups", codes "svcneg")
    ∷ (codes "ingresses", codes "ing")
    ∷ (codes "ingress", codes "ing")
    ∷ (codes "networkpolicies", codes "netpol")
    ∷ (codes "updateinfos", codes "updinf")
    ∷ (codes "instrumentations", codes "otelinst")
    ∷ (codes "otelinsts", codes "otelinst")
    ∷ (codes "opentelemetrycollectors", codes "otelcol")
    ∷ (codes "opentelemetrycollector", codes "otelcol")
    ∷ (codes "otelcols", codes "otelcol")
    ∷ (codes "poddisruptionbudgets", codes "pdb")
    ∷ (codes "priorityclasses", codes "pc")
    ∷ (codes "volumesnapshotclasses", codes "vsclass,vsclasses")
    ∷ (codes "volumesnapshotcontents", codes "vsc,vscs")
    ∷ (codes "volumesnapshots", codes "vs")
    ∷ (codes "storageclasses", codes "sc")
    ∷ []
