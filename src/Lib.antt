-- ===== src/Lib.antt =====
-- lab-in-a-box builds labs of virtual machines from a JSON definition. Modelled are thirteen parts of it that
-- keep state or decide on it.
--
-- The overlay network (libs/overlay.py): WireGuard gateways of several sites around a hub, which keeps the
-- sites, their overlay addresses, the nodes and the DNS servers in text files that are read and rewritten
-- over SSH. Remote.antt is libs/lab_creation.py's ssh_run and ssh_output: each command that the overlay
-- sends is a constructor of Command, with its effect on the files of a host (effect); an environment (Env)
-- decides what the commands answer that do not only touch files, and whether a host can be reached, and may
-- answer differently after each command. Remote/Up.antt is about hosts that answer. Overlay.antt has the
-- names of sites and gateways, Overlay/Alloc.antt _allocate_overlay_ip, Overlay/Registry.antt the registries
-- (_register_site, list_other_sites, register_node, list_nodes, register_dns_server, list_dns_servers,
-- dns_servers), Overlay/Peers.antt the keys, configurations and peers (generate_wg_keypair,
-- _render_hub_config, _render_spoke_config, add_peer_to_hub, remove_peer_from_hub), Overlay/Gateway.antt
-- ensure_overlay_hub_ready and ensure_overlay_site_gateway, and Overlay/Routes.antt
-- ensure_route_via_site_gateway, refresh_routes, forget_node and retire_site. A command that is not run with
-- success where the code demands it raises remote_error; die() raises died. Log lines are left out.
--
-- The addresses of nodes (libs/ipalloc.py): IpAlloc.antt is lab_network, definition_ips, candidates and
-- allocate. The digest of a text is a parameter; what the zone file, the backend, this machine and ping say
-- is a record (Surroundings).
--
-- The record of schema versions (libs/schema_versions.py): SchemaVersions.antt has the snapshots and their
-- differences (breaking_changes, other_changes), SchemaVersions/Check.antt the check of one schema's entries
-- (_entry_problems, _schema_problems) and of the whole record (check). A sentence is a value with the data
-- that it shows. A version with a line feed behind it, which the code reads, raises here.
--
-- The migrations (libs/migrations.py): Migrations.antt has the lab definition, in which a cluster or node
-- has its fields and its add-ons, and the walk over the sections and overrides of an add-on
-- (_section_configs); what Python changes in place is given back. Migrations/Steps.antt has the steps that
-- remove keys, Migrations/Defaults.antt those that write values, Migrations/Table.antt MIGRATIONS, and
-- Migrations/Pending.antt schemas_of, pending, stamp, migrate, needed_changes and require_current for a lab
-- definition. A change names the key and what was written; the fixed reason and the owner's name of its
-- sentence are left out. Python's str() of a value that is no text is a parameter.
--
-- The version matrix (libs/versions.py): Versions.antt has normalize, matches, entry_for, kubernetes_minor
-- and issues.
--
-- Port forwarding (libs/portforward.py): PortForward.antt has parse_port_spec, build_dnat_rules,
-- _ensure_chain and apply_forwarded_ports; iptables is a parameter, of which PortForward/Apply.antt names
-- what is documented.
--
-- Clusters (libs/k8s.py, libs/apps.py): Kubernetes.antt has the distributions, cluster_choice, cluster_needs,
-- cluster_plan, cluster_services, cluster_disabled and cluster_provides, on the lab definition of
-- Migrations.antt; Kubernetes/Requirements.antt has requirement_issue, and Kubernetes/Nodes.antt
-- kcluster_node_count, first_server_node, kcluster_node, addon_nodes and addon_node_config. What an add-on declares of itself is a parameter.
--
-- Hypervisors (libs/lab_creation.py, libs/backends.py): Hosts.antt is host_resources, select_kvm_host,
-- _configured_hosts, _virt_srv_for_host, resolve_kvm_host, locate_kvm_host and image_source_hosts;
-- Hosts/Totals.antt is total_lab_resources, and Yaml.antt yaml_scalar. What the commands print over SSH, and which host has a machine, are parameters.
--
-- Base images (libs/lab_creation.py, libs/source_utils.py): Images.antt is is_url, image_file_name, image_name,
-- source_checksum, image_source and image_download_requests, and Images/Downloads.antt image_source_issues,
-- fetch_source_image and scripts/setup_lab.py's phase_fetch_images. The script that downloads on a host is a parameter.
--
-- The setup of a lab (scripts/setup_lab.py): LabRun.antt has the report of a run (_RunReport), the calls that
-- it makes, what they answer (Outside), and the programs that make them: they pass on a state, with the world,
-- the report and the calls so far, and may raise. LabRun/Targets.antt is libs/targets.py's node_kind and
-- libs/harvester.py's cluster_of and create_node, LabRun/Machines.antt _create_one_vm, phase_create_vms and
-- phase_reboot_and_wait_kept_nodes, LabRun/Clusters.antt phase_dns, phase_install_k8s_and_addons,
-- phase_vm_addons and phase_post_commands, and LabRun/Whole.antt phase_services and setup_lab. The workers of
-- a parallel run are taken one after the other, in an order that is a parameter. LabRun/Keeping.antt has what
-- each phase keeps, for every property that its calls and its entries in the report keep. LabRun/Main.antt is
-- main, phase_allocate_ips, validate_addon_configs and _fold_issues_into_report; the preflight is a parameter.
-- The file that phase_allocate_ips gives is the one that add-ons and their checks are handed.
--
-- The check of values (libs/schema_validate.py): Validate.antt is value_finding and section_findings,
-- Validate/Sections.antt definition_findings and addon_findings, on JSON values.
--
-- Credentials (libs/crypto_store.py): Credentials.antt is the derivation of keys, encrypt_cascade,
-- decrypt_cascade, passphrase_from_env and prompt_passphrase; ciphers and base64 are parameters, of which
-- Credentials/Cascade.antt names what is documented.
--
-- Zones (libs/dns_zone.py, libs/services.py): DnsZone.antt is all of dns_zone.py, and _compare_zone,
-- sync_zone, _write_records and _remote_dns_add on one zone file of each server that answers. A file is the
-- list of its lines, and a set the list of its elements. DnsZone/Local.antt is add_to_dns (without replace)
-- and del_from_dns on this host's own files, which exist; a file of which every line is removed is left with
-- an empty line, as the code leaves it.
--
-- Prelude.antt, Result.antt and Text.antt have what the parts share: Boolean tests, dicts as association
-- lists in the order of insertion, Python's errors, and Python's operations on ASCII texts. Ip.antt is what
-- the code uses of Python's ipaddress module. Numbers are natural numbers, but for the integers of JSON
-- values (Validate.ℤ); addresses are below 2 ^ 32. All loops are over lists, so there is no fuel, but for the digits of a number (Text.show_from, whose fuel is
-- the number plus one). Samples.antt has concrete hosts and definitions.
--
-- Not modelled: the preflight of a definition, creating machines through the hypervisor and cloud backends,
-- the web UI, the installers of the add-ons, and the commands' own work other than on the files of the
-- overlay.
pub mod Prelude
pub mod Result
pub mod Text
pub mod Ip
pub mod Remote
pub mod Overlay
pub mod IpAlloc
pub mod SchemaVersions
pub mod Versions
pub mod PortForward
pub mod Migrations
pub mod Credentials
pub mod Validate
pub mod Kubernetes
pub mod Hosts
pub mod DnsZone
pub mod Yaml
pub mod Images
pub mod LabRun
pub mod Samples
