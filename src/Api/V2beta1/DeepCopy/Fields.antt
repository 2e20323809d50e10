-- ===== src/Api/V2beta1/DeepCopy/Fields.antt =====
-- The fields of the structures of api/v2beta1: each structure is the tuple of all of them.
use atom_operator.Prelude.{refl, String}
use atom_operator.Prelude.Int.{ℤ}
use atom_operator.Api.Model.{TypeMeta}
use atom_operator.Memory.{Pointer, Slice, Fields}
use atom_operator.Api.V2beta1.InMemory.{
  Imports, ResultAnsible, Resources, General, Autoscaling, HealthCheck, Lifecycle, Author, Srs,
  OtherLink, AtomStatus, Condition, Status, Kubernetes, Bbox, Link, Download, Dataset, AtomService,
  AtomSpec, Atom, AtomList,
}

abbrev pub result_ansible_fields : Fields ResultAnsible (ℤ × (ℤ × (ℤ × (ℤ × String))))
result_ansible_fields = record {
  to = (λ x. (x.ok, (x.changed, (x.skipped, (x.failures, x.time_of_completion)))));
  from = (λ p. record {
    ok = p.0;
    changed = p.1.0;
    skipped = p.1.1.0;
    failures = p.1.1.1.0;
    time_of_completion = p.1.1.1.1;
  });
  whole = λ x. refl;
  parts = λ p. refl;
}

abbrev pub resources_fields : Fields Resources (Pointer String × (Pointer String × Pointer String))
resources_fields = record {
  to = (λ x. (x.api_version, (x.kind, x.name)));
  from = (λ p. record { api_version = p.0; kind = p.1.0; name = p.1.1 });
  whole = λ x. refl;
  parts = λ p. refl;
}

abbrev pub general_fields :
    Fields General (String × (Pointer String × (String × (Pointer String × Pointer String))))
general_fields = record {
  to = (λ x. (x.dataset, (x.theme, (x.dataset_owner, (x.service_version, x.data_version)))));
  from = (λ p. record {
    dataset = p.0;
    theme = p.1.0;
    dataset_owner = p.1.1.0;
    service_version = p.1.1.1.0;
    data_version = p.1.1.1.1;
  });
  whole = λ x. refl;
  parts = λ p. refl;
}

abbrev pub autoscaling_fields : Fields Autoscaling (Pointer ℤ × (Pointer ℤ × Pointer ℤ))
autoscaling_fields = record {
  to = (λ x. (x.average_cpu_utilization, (x.min_replicas, x.max_replicas)));
  from =
      (λ p. record { average_cpu_utilization = p.0; min_replicas = p.1.0; max_replicas = p.1.1 });
  whole = λ x. refl;
  parts = λ p. refl;
}

abbrev pub health_check_fields :
    Fields HealthCheck (Pointer String × (Pointer String × Pointer String))
health_check_fields = record {
  to = (λ x. (x.querystring, (x.mimetype, x.boundingbox)));
  from = (λ p. record { querystring = p.0; mimetype = p.1.0; boundingbox = p.1.1 });
  whole = λ x. refl;
  parts = λ p. refl;
}

abbrev pub lifecycle_fields : Fields Lifecycle (Pointer ℤ)
lifecycle_fields = record {
  to = (λ x. x.ttl_in_days);
  from = (λ p. record { ttl_in_days = p });
  whole = λ x. refl;
  parts = λ p. refl;
}

abbrev pub author_fields : Fields Author (String × String)
author_fields = record {
  to = (λ x. (x.name, x.email));
  from = (λ p. record { name = p.0; email = p.1 });
  whole = λ x. refl;
  parts = λ p. refl;
}

abbrev pub srs_fields : Fields Srs (String × String)
srs_fields = record {
  to = (λ x. (x.uri, x.code));
  from = (λ p. record { uri = p.0; code = p.1 });
  whole = λ x. refl;
  parts = λ p. refl;
}

abbrev pub other_link_fields :
    Fields OtherLink (String × (String × (Pointer String × Pointer String)))
other_link_fields = record {
  to = (λ x. (x.link_type, (x.uri, (x.content_type, x.language))));
  from = (λ p. record { link_type = p.0; uri = p.1.0; content_type = p.1.1.0; language = p.1.1.1 });
  whole = λ x. refl;
  parts = λ p. refl;
}

module _ {i : Imports} where
  abbrev pub condition_fields :
      Fields
        (Condition i)
        (String × (String × (i.Time × (Pointer ResultAnsible × (String × String)))))
  condition_fields = record {
    to = (λ x. (
      x.condition_type,
      (x.status, (x.last_transition_time, (x.ansible_result, (x.reason, x.message)))),
    ));
    from = (λ p. record {
      condition_type = p.0;
      status = p.1.0;
      last_transition_time = p.1.1.0;
      ansible_result = p.1.1.1.0;
      reason = p.1.1.1.1.0;
      message = p.1.1.1.1.1;
    });
    whole = λ x. refl;
    parts = λ p. refl;
  }

  abbrev pub status_fields :
      Fields (Status i) (Slice (Condition i) × (Pointer String × Slice Resources))
  status_fields = record {
    to = (λ x. (x.conditions, (x.deployment, x.resources)));
    from = (λ p. record { conditions = p.0; deployment = p.1.0; resources = p.1.1 });
    whole = λ x. refl;
    parts = λ p. refl;
  }

  abbrev pub kubernetes_fields : Fields (Kubernetes i) (
      Pointer Autoscaling
      × (Pointer HealthCheck × (Pointer i.ResourceRequirements × Pointer Lifecycle)))
  kubernetes_fields = record {
    to = (λ x. (x.autoscaling, (x.health_check, (x.resources, x.lifecycle))));
    from = (λ p. record {
      autoscaling = p.0;
      health_check = p.1.0;
      resources = p.1.1.0;
      lifecycle = p.1.1.1;
    });
    whole = λ x. refl;
    parts = λ p. refl;
  }

  abbrev pub bbox_fields : Fields (Bbox i) (i.Float32 × (i.Float32 × (i.Float32 × i.Float32)))
  bbox_fields = record {
    to = (λ x. (x.min_x, (x.max_x, (x.min_y, x.max_y))));
    from = (λ p. record { min_x = p.0; max_x = p.1.0; min_y = p.1.1.0; max_y = p.1.1.1 });
    whole = λ x. refl;
    parts = λ p. refl;
  }

  abbrev pub link_fields :
      Fields
        (Link i)
        (Pointer String × (Pointer String × (Pointer String × (Pointer (Bbox i) × Pointer String))))
  link_fields = record {
    to = (λ x. (x.blob_key, (x.updated, (x.version, (x.bbox, x.rel)))));
    from = (λ p. record {
      blob_key = p.0;
      updated = p.1.0;
      version = p.1.1.0;
      bbox = p.1.1.1.0;
      rel = p.1.1.1.1;
    });
    whole = λ x. refl;
    parts = λ p. refl;
  }

  abbrev pub download_fields :
      Fields
        (Download i)
        (String × (Pointer String × (Pointer String × (Pointer String × (Slice (Link i) × Srs)))))
  download_fields = record {
    to = (λ x. (x.name, (x.title, (x.updated, (x.content, (x.links, x.srs))))));
    from = (λ p. record {
      name = p.0;
      title = p.1.0;
      updated = p.1.1.0;
      content = p.1.1.1.0;
      links = p.1.1.1.1.0;
      srs = p.1.1.1.1.1;
    });
    whole = λ x. refl;
    parts = λ p. refl;
  }

  abbrev pub dataset_fields : Fields (Dataset i) (
      String
      × (String
          × (String × (String × (String × (Slice OtherLink × (Slice (Download i) × Bbox i)))))))
  dataset_fields = record {
    to = (λ x. (
      x.name,
      (
        x.title,
        (
          x.subtitle,
          (x.metadata_identifier, (x.source_identifier, (x.links, (x.downloads, x.bbox)))),
        ),
      ),
    ));
    from = (λ p. record {
      name = p.0;
      title = p.1.0;
      subtitle = p.1.1.0;
      metadata_identifier = p.1.1.1.0;
      source_identifier = p.1.1.1.1.0;
      links = p.1.1.1.1.1.0;
      downloads = p.1.1.1.1.1.1.0;
      bbox = p.1.1.1.1.1.1.1;
    });
    whole = λ x. refl;
    parts = λ p. refl;
  }

  abbrev pub atom_service_fields :
      Fields
        (AtomService i)
        (String × (String × (String × (String × (Pointer String × (Author × Slice (Dataset i)))))))
  atom_service_fields = record {
    to = (λ x. (
      x.title,
      (x.subtitle, (x.metadata_identifier, (x.rights, (x.updated, (x.author, x.datasets))))),
    ));
    from = (λ p. record {
      title = p.0;
      subtitle = p.1.0;
      metadata_identifier = p.1.1.0;
      rights = p.1.1.1.0;
      updated = p.1.1.1.1.0;
      author = p.1.1.1.1.1.0;
      datasets = p.1.1.1.1.1.1;
    });
    whole = λ x. refl;
    parts = λ p. refl;
  }

  abbrev pub atom_spec_fields :
      Fields (AtomSpec i) (General × (AtomService i × Pointer (Kubernetes i)))
  atom_spec_fields = record {
    to = (λ x. (x.general, (x.service, x.kubernetes)));
    from = (λ p. record { general = p.0; service = p.1.0; kubernetes = p.1.1 });
    whole = λ x. refl;
    parts = λ p. refl;
  }

  abbrev pub atom_fields : Fields (Atom i) (TypeMeta × (i.ObjectMeta × (AtomSpec i × AtomStatus)))
  atom_fields = record {
    to = (λ x. (x.type_meta, (x.meta, (x.spec, x.status))));
    from = (λ p. record { type_meta = p.0; meta = p.1.0; spec = p.1.1.0; status = p.1.1.1 });
    whole = λ x. refl;
    parts = λ p. refl;
  }

  abbrev pub atom_list_fields : Fields (AtomList i) (TypeMeta × (i.ListMeta × Slice (Atom i)))
  atom_list_fields = record {
    to = (λ x. (x.type_meta, (x.meta, x.items)));
    from = (λ p. record { type_meta = p.0; meta = p.1.0; items = p.1.1 });
    whole = λ x. refl;
    parts = λ p. refl;
  }
